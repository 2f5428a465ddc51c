-- ===== src/Smtc/Com.antt =====
-- internal/smtc/thumbnail.go: the calls of the stream's interfaces by their tables, and the wait for a
-- read. A call answers an HRESULT and what it has written.
use smtc_now_playing.Prelude.{
  ℕ, zero, suc, ◌+◌, ◌<◌, Bool, true, false, Option, none, some, Text, ◌==◌, if◌then◌else◌, ◌≡◌,
  ◌≢◌, sym, ap, ◌∙◌, arith,
}
use smtc_now_playing.Smtc.Async.{AsyncStatus, started, completed, canceled, error}

-- What a call gives: its value, or `ole.NewError` of the HRESULT.
pub data Result (A : Type 0) : Type 0 where
  value : A → Result A
  failed : ℕ → Result A

abbrev pub checked : {A : Type 0} → ℕ → A → Result A
checked hr out = if hr == 0 then value out else failed hr

unfoldable pub get_size : ℕ → ℕ → Result ℕ
get_size hr out = checked hr out

-- A pointer is its number.
unfoldable pub get_input_stream_at : ℕ → ℕ → Result ℕ
get_input_stream_at hr out = checked hr out

-- The string's handle is deleted once it has been read.
unfoldable pub get_content_type : ℕ → Text → Result Text × Bool
get_content_type hr out = (checked hr out, hr == 0)

unfoldable pub read_async : ℕ → ℕ → Result ℕ
read_async hr out = checked hr out

unfoldable pub get_async_with_progress_result : ℕ → ℕ → Result ℕ
get_async_with_progress_result hr out = checked hr out

-- The loop of `pollAsyncProgress`, on what `GetStatus` answers in each round (`none` for an error), with
-- fuel; `none` means that it still polls.
unfoldable pub poll : ℕ → ℕ → (ℕ → Option AsyncStatus) → Option AsyncStatus
poll zero round statuses = none
poll (suc fuel) round statuses = elim (statuses round) [
  | none ↦ some error
  | some started ↦ poll fuel (suc round) statuses
  | some completed ↦ some completed
  | some canceled ↦ some canceled
  | some error ↦ some error
]

-- `pollAsyncProgress`, for an operation that may be nil and may lack the interface.
unfoldable pub poll_async_progress : ℕ → Bool → Bool → (ℕ → Option AsyncStatus) → Option AsyncStatus
poll_async_progress fuel false has_info statuses = some error
poll_async_progress fuel true false statuses = some error
poll_async_progress fuel true true statuses = poll fuel 0 statuses

-- The status of the first round that does not answer that the operation is running.
abbrev pub settled : Option AsyncStatus → AsyncStatus
settled none = error
settled (some s) = s

poll_settles :
    (fuel round k : ℕ) (statuses : ℕ → Option AsyncStatus)
    → k < fuel
    → ((i : ℕ) → i < k → statuses (round + i) ≡ some started)
    → statuses (round + k) ≢ some started
    → poll fuel round statuses ≡ some (settled (statuses (round + k)))
unfolding poll
poll_settles zero round k statuses few running ended = absurd (omega arith)
poll_settles (suc fuel) round zero statuses few running ended =
    let same : statuses (round + 0) ≡ statuses round = ap statuses (omega arith) in
    ground (arith, same)
poll_settles (suc fuel) round (suc k) statuses few running ended =
    let first : statuses round ≡ some started =
      ap statuses (omega arith) ∙ running 0 (omega arith) in
    let same : statuses (suc round + k) ≡ statuses (round + suc k) = ap statuses (omega arith) in
    let rest =
      poll_settles fuel (suc round) k statuses (omega arith)
        (λ i h. ap statuses (omega arith) ∙ running (suc i) (omega arith))
        (λ e. ended (sym same ∙ e)) in
    ground (arith, first, same, rest)

-- The wait for a read ends: if the operation is running in every round before the k-th and no longer in
-- that one, then the wait, given more than k rounds, returns the status of this round, or an
-- error if it cannot be read.
pub poll_async_progress_settles :
    (fuel k : ℕ) (statuses : ℕ → Option AsyncStatus)
    → k < fuel
    → ((i : ℕ) → i < k → statuses i ≡ some started)
    → statuses k ≢ some started
    → poll_async_progress fuel true true statuses ≡ some (settled (statuses k))
unfolding poll_async_progress
poll_async_progress_settles fuel k statuses few running ended =
    let same : statuses (0 + k) ≡ statuses k = ap statuses (omega arith) in
    poll_settles fuel 0 k statuses few (λ i h. ap statuses (omega arith) ∙ running i h)
      (λ e. ended (sym same ∙ e))
    ∙ ap (λ s. some (settled s)) same
