-- ===== src/Smtc/Async.antt =====
-- internal/smtc/helpers.go: waiting for a WinRT operation, and reading a value that may be absent.
use smtc_now_playing.Prelude.{
  ℕ, suc, Bool, true, false, not, Option, none, some, List, [], ◌∷◌, ◌==◌, if◌then◌else◌, ◌≡◌, ◌⊎◌,
  ◌↔◌, arith,
}

-- The states of a WinRT operation.
pub data AsyncStatus : Type 0 where
  started completed canceled error : AsyncStatus

abbrev pub is_completed : AsyncStatus → Bool
is_completed completed = true
is_completed _ = false

-- What Windows does with an operation while it is waited for: its status at the start, the event
-- object that `createEvent` gives (0 for none), whether `SetCompleted` takes the handler, whether
-- the event is signalled within `asyncWaitTimeoutMillis`, the status read last, and the result.
pub record AsyncOp (R : Type 0) : Type 0 where
  pub first_status : AsyncStatus
  pub event_handle : ℕ
  pub registered : Bool
  pub signaled : Bool
  pub last_status : AsyncStatus
  pub results : Option R

-- The calls that take and give back what the wait holds.
pub data Call : Type 0 where
  create_event new_handler close_handle release_handler : Call

-- A result, the final status, and the calls made.
abbrev pub Waited : Type 0 → Type 0
Waited R = Option R × AsyncStatus × List Call

-- `GetResults` is called only on a completed operation; a nil result is `none`.
get_results : {R : Type 0} → AsyncOp R → List Call → Waited R
get_results op calls =
    if is_completed op.last_status
    then (op.results, op.last_status, calls)
    else (none, op.last_status, calls)

unfoldable pub wait_for_async : {R : Type 0} → AsyncOp R → Waited R
unfolding get_results
wait_for_async op =
    if is_completed op.first_status
    then get_results op []
    else if op.event_handle == 0
    then (none, error, [])
    else if not op.registered
    then (none, error, create_event ∷ new_handler ∷ release_handler ∷ close_handle ∷ [])
    else if not op.signaled
    then (none, error, create_event ∷ new_handler ∷ close_handle ∷ release_handler ∷ [])
    else get_results op (create_event ∷ new_handler ∷ close_handle ∷ release_handler ∷ [])

-- `readNullableBool`, `readNullableFloat64` and `readNullableInt32`: a reference that may be nil,
-- whose value may not be readable, with the zero value for both.
unfoldable pub read_nullable : {A : Type 0} → A → Option (Option A) → A × Bool
read_nullable zero_value none = (zero_value, false)
read_nullable zero_value (some none) = (zero_value, false)
read_nullable zero_value (some (some v)) = (v, true)

-- How many objects of each kind are held after the calls.
pub events_held : List Call → ℕ
events_held [] = 0
events_held (create_event ∷ cs) = suc (events_held cs)
events_held (_ ∷ cs) = events_held cs

pub events_closed : List Call → ℕ
events_closed [] = 0
events_closed (close_handle ∷ cs) = suc (events_closed cs)
events_closed (_ ∷ cs) = events_closed cs

pub handlers_made : List Call → ℕ
handlers_made [] = 0
handlers_made (new_handler ∷ cs) = suc (handlers_made cs)
handlers_made (_ ∷ cs) = handlers_made cs

pub handlers_released : List Call → ℕ
handlers_released [] = 0
handlers_released (release_handler ∷ cs) = suc (handlers_released cs)
handlers_released (_ ∷ cs) = handlers_released cs

-- On every path of the wait the event objects closed are as many as those created, and the
-- handlers released as many as those made.
pub wait_for_async_balanced :
    {R : Type 0} (op : AsyncOp R)
    → (events_held (wait_for_async op).2 ≡ events_closed (wait_for_async op).2)
      × (handlers_made (wait_for_async op).2 ≡ handlers_released (wait_for_async op).2)
unfolding wait_for_async events_held events_closed handlers_made handlers_released
wait_for_async_balanced op = ground arith

-- The wait reports completion exactly when the operation is completed at the last look, and either
-- was at the first look too or an event object was there, the handler was taken and the event came
-- in time.
pub wait_for_async-completed :
    {R : Type 0} (op : AsyncOp R)
    → ((wait_for_async op).1 ≡ completed) ↔ (
        (op.last_status ≡ completed)
        × ((op.first_status ≡ completed)
            ⊎ ((op.event_handle == 0) ≡ false) × (op.registered ≡ true) × (op.signaled ≡ true)))
unfolding wait_for_async
wait_for_async-completed op = ground arith
