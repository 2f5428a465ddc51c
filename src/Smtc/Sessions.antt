-- ===== src/Smtc/Sessions.antt =====
-- internal/smtc/session.go: the list of sessions, the choice of the one that is watched, and the
-- switch to it.
pub mod Switching
pub mod Naming
pub mod Clearing
use smtc_now_playing.Prelude.{
  ℕ, zero, suc, ◌+◌, Bool, true, false, not, Option, none, some, List, [], ◌∷◌, ◌++◌, map, Text,
  codes, text_eq, length, get_elem?, ◌==◌, ◌&&◌, ◌||◌, if◌then◌else◌,
}
use smtc_now_playing.Prelude.Tests.{ltb}
use smtc_now_playing.Prelude.Decimal.{decimal}
use smtc_now_playing.Smtc.Types.{
  SessionInfo, Event, info_event, progress_event, sessions_changed_event, device_changed_event,
  no_info, progress_with_status, status_closed, info_data_to_domain, progress_data_to_domain,
  session_infos_to_domain,
}
use smtc_now_playing.Smtc.State.{Smtc, Handled}
use smtc_now_playing.Smtc.Names.{friendly_app_name}
use smtc_now_playing.Smtc.Media.{MediaReply, handle_media_properties_changed}

-- An error: with the code that an `ole.OleError` carries, or of another type.
pub data Failure : Type 0 where
  ole_error : ℕ → Failure
  other_error : Failure

unfoldable pub is_dead_session_error : Option Failure → Bool
is_dead_session_error none = false
is_dead_session_error (some (ole_error hr)) = hr == 0x800706BA || hr == 0x80070015
is_dead_session_error (some other_error) = false

-- `GetSourceAppUserModelId`.
pub data AppIdReply : Type 0 where
  app_id_is : Text → AppIdReply
  app_id_failed : Failure → AppIdReply

-- One item of the vector: `GetAt` fails or gives nil, or gives an object.
pub data Item : Type 0 where
  no_object : Item
  object : ℕ → AppIdReply → Item

-- The first loop of `enumerateSessions`: the id and the object of each session that is not dead.
unfoldable pub reachable : List Item → List (Text × ℕ)
reachable [] = []
reachable (no_object ∷ items) = reachable items
reachable (object o (app_id_is a) ∷ items) = (a, o) ∷ reachable items
reachable (object o (app_id_failed e) ∷ items) =
    let rest = reachable items in if is_dead_session_error (some e) then rest else ([], o) ∷ rest

-- A Go map from strings to numbers, 0 for a missing key.
abbrev pub Counter : Type 0
Counter = Text → ℕ

abbrev pub no_counts : Counter
no_counts key = 0

unfoldable pub bump : Text → Counter → Counter
bump key m j = if text_eq key j then m j + 1 else m j

unfoldable pub count_ids : List Text → Counter → Counter
count_ids [] counts = counts
count_ids (a ∷ as_) counts = count_ids as_ (bump a counts)

-- `fmt.Sprintf("%s (%d)", name, n)`.
unfoldable pub numbered : Text → ℕ → Text
numbered name n = name ++ (codes " (" ++ (decimal n ++ codes ")"))

-- The loop that names the sessions.
unfoldable pub name_sessions : Counter → Counter → List Text → List SessionInfo
name_sessions counts indices [] = []
name_sessions counts indices (a ∷ rest) =
    let twin = ltb 1 (counts a) in
    let later = name_sessions counts (if twin then bump a indices else indices) rest in
    let name =
      if twin then numbered (friendly_app_name a) (bump a indices a) else friendly_app_name a in
    record { app_id = a; name = name; source_app_id = a } ∷ later

unfoldable pub build_sessions : List Text → List SessionInfo
build_sessions ids = name_sessions (count_ids ids no_counts) no_counts ids

-- What WinRT answers to a switch: the tokens of the two registrations (`none` for the zero token
-- that a failure leaves), and the reply to the reading of the media properties.
pub record SwitchReply : Type 0 where
  pub media_token : Option ℕ
  pub playback_token : Option ℕ
  pub media : MediaReply

-- `unsubscribePropertyEvents`, if there is a session.
unfoldable pub unsubscribe_property_events : Smtc → Smtc
unsubscribe_property_events s = record s { media_token = none; playback_token = none }

abbrev pub leave : Option ℕ → Smtc → Smtc
leave none s = s
leave (some _) s = unsubscribe_property_events s

unfoldable pub subscribe_property_events : SwitchReply → Smtc → Smtc
subscribe_property_events w s = record s {
  media_token = w.media_token;
  playback_token = w.playback_token;
}

abbrev pub device_event : Option SessionInfo → List Event
device_event none = []
device_event (some sess) = device_changed_event sess.app_id ∷ []

-- The rest of `switchToSession`, with `objects[index]` where the index is in range.
unfoldable pub enter : ℕ → Smtc → SwitchReply → Option ℕ → Handled
enter index s w none = (s, [])
enter index s w (some o) =
    let entered = subscribe_property_events w (record s { current_session = some o }) in
    let (t, events) = handle_media_properties_changed entered w.media in
    (t, events ++ device_event (get_elem? s.sessions index))

unfoldable pub switch_to_session : ℕ → Smtc → SwitchReply → Handled
unfolding enter
switch_to_session index s w =
    enter index (leave s.current_session s) w (get_elem? s.session_objects index)

-- The first session with an application id.
unfoldable pub index_of : Text → List SessionInfo → Option ℕ
index_of app_id [] = none
index_of app_id (sess ∷ rest) =
    let later = index_of app_id rest in
    if text_eq sess.app_id app_id
    then some 0
    else elim later [ none ↦ none | some i ↦ some (suc i) ]

abbrev or_first : Option ℕ → ℕ
or_first none = 0
or_first (some i) = i

abbrev nonempty : Text → Bool
nonempty [] = false
nonempty (c ∷ s) = true

-- `selectedIndex`, of a list that is not empty: the selected application if it is present, else the
-- first session.
unfoldable pub selected_index : Text → List SessionInfo → ℕ
selected_index app_id sessions =
    or_first (if nonempty app_id then index_of app_id sessions else none)

abbrev pub switch_or_clear : List SessionInfo → Smtc → SwitchReply → Handled
switch_or_clear [] s w = (
  record s {
    current_session = none;
    current_artist = [];
    current_title = [];
    current_status = status_closed;
    current_thumbnail_size = 0;
  },
  info_event (info_data_to_domain no_info)
      ∷ progress_event (progress_data_to_domain (progress_with_status status_closed))
      ∷ [],
)
switch_or_clear (x ∷ xs) s w = switch_to_session (selected_index s.selected_app_id (x ∷ xs)) s w

unfoldable pub apply_session_list : List SessionInfo → List ℕ → Smtc → SwitchReply → Handled
apply_session_list sessions objects s w =
    let stored = record s { sessions = sessions; session_objects = objects } in
    let (t, events) = switch_or_clear sessions stored w in
    (t, sessions_changed_event (session_infos_to_domain sessions) ∷ events)

-- What WinRT answers to `enumerateSessions`: the list, `none` for an error of `GetSessions` or of
-- `GetSize`, and the replies to the switch.
pub record SessionsReply : Type 0 where
  pub vector : Option (List Item)
  pub switch : SwitchReply

abbrev pub enumerate_items : Option (List Item) → Smtc → SwitchReply → Handled
enumerate_items none s w = apply_session_list [] [] s w
enumerate_items (some items) s w =
    let found = reachable items in
    apply_session_list (build_sessions (map (λ f. f.0) found)) (map (λ f. f.1) found) s w

unfoldable pub enumerate_sessions : Smtc → SessionsReply → Handled
enumerate_sessions s w = enumerate_items w.vector s w.switch

-- The loop of `selectDevice`: the first session with the id, if it has an object.
unfoldable pub selectable : Text → List SessionInfo → ℕ → ℕ → Option ℕ
selectable app_id [] objects i = none
selectable app_id (sess ∷ rest) objects i =
    let later = selectable app_id rest objects (i + 1) in
    if text_eq sess.app_id app_id && ltb i objects then some i else later

abbrev pub switch_if : Option ℕ → Smtc → SwitchReply → Handled
switch_if none s w = (s, [])
switch_if (some i) s w = switch_to_session i s w

unfoldable pub select_device : Text → Smtc → SwitchReply → Handled
select_device app_id s w =
    switch_if (selectable app_id s.sessions (length s.session_objects) 0)
      (record s { selected_app_id = app_id }) w
