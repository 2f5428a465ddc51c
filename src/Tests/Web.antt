-- ===== src/Tests/Web.antt =====
-- The server's state and connections at concrete inputs.
use smtc_now_playing.Prelude.{
  ◌+◌, subst, ◌%◌, true, Option, false, none, some, List, [], ◌∷◌, Text, All, text_eq, codes, ◌==◌,
  ◌≡◌, ◌⊎◌, inl, refl, if◌then◌else◌, arith,
}
use smtc_now_playing.Prelude.Int.{ℤ, pos}
use smtc_now_playing.Prelude.Decimal.{decimal}
use smtc_now_playing.Json.{fits_int64}
use smtc_now_playing.Smtc.Types.{Event, info_event, device_changed_event}
use smtc_now_playing.Wsproto.{Envelope, envelope_json}
use smtc_now_playing.Server.Hub.{new_hub}
use smtc_now_playing.Server.State.{Server, Snapshot, no_snapshot, process_events}
use smtc_now_playing.Server.State.Tracking.{IsConsistent, process_events-IsConsistent}
use smtc_now_playing.Server.State.Cover.{Served, Refused, handle_album_art_serves}
use smtc_now_playing.Server.Dispatch.{ServiceCall, ws_dispatch, handle_control}
use smtc_now_playing.Server.Dispatch.Agreement.{http_response, handle_control-ws_dispatch}
use smtc_now_playing.Server.Connection.{start_control, on_message, run_heartbeat}
use smtc_now_playing.Server.Connection.Messages.{control_envelope, on_message_control}
use smtc_now_playing.Server.Connection.Heartbeat.{
  silent_tick, ping_at, closing, run_heartbeat_silent,
}
use smtc_now_playing.Server.Api.{handle_now_playing}
use smtc_now_playing.Server.Api.Agreement.{TellsMessage, handle_now_playing-TellsMessage}
use smtc_now_playing.Server.Paths.{
  safe_join, join, clean_onto, components, contains_rune, trim_slashes, below,
}
use smtc_now_playing.Server.Paths.Containment.{IsPlain, named-IsPlain, Below, safe_join-Below}
use smtc_now_playing.Server.HotReload.{FileOp, timer_seen, is_change}
use smtc_now_playing.Server.HotReload.Debounce.{told_by, hot_reload_once}
use smtc_now_playing.Tests.{domain_song}

-- A text that tells the time stamp, in the place of the one that the encoder writes.
abbrev stamp_of : ℤ → Text
stamp_of (pos n) = decimal n
stamp_of _ = []

abbrev stamp_text : Envelope → Text
stamp_text e = stamp_of e.ts

abbrev first_byte : Text → Text
first_byte [] = []
first_byte (c ∷ s) = c ∷ []

abbrev fresh : Server
fresh = record { state = no_snapshot; hub = new_hub }

fresh-IsConsistent : IsConsistent stamp_text first_byte no_snapshot
fresh-IsConsistent = (inl (refl, refl, refl, refl), inl (refl, refl))

abbrev events : List (ℤ × Event)
events = (pos 1000, info_event domain_song) ∷ (pos 1001, device_changed_event []) ∷ []

process_events-IsConsistent_example :
    IsConsistent stamp_text first_byte (process_events stamp_text first_byte events fresh).state
process_events-IsConsistent_example =
    process_events-IsConsistent stamp_text first_byte events fresh fresh-IsConsistent

abbrev told : Snapshot
told = (process_events stamp_text first_byte events fresh).state

handle_album_art_serves_example : Served first_byte (1 ∷ []) told ⊎ Refused (1 ∷ []) told
handle_album_art_serves_example =
    handle_album_art_serves stamp_text first_byte told (1 ∷ []) process_events-IsConsistent_example

abbrev service : ServiceCall → Option Text
service c = none

handle_control-ws_dispatch_example :
    handle_control service (codes "play") none
    ≡ http_response service (ws_dispatch (codes "play") none)
handle_control-ws_dispatch_example = handle_control-ws_dispatch service (codes "play") none

stamp_fits : fits_int64 (pos 5) ≡ true
unfolding fits_int64
stamp_fits = ground arith

on_message_control_example :
    on_message stamp_text
      (pos 6)
      (some (envelope_json (control_envelope (codes "1") (pos 5) (codes "play") none)))
    ≡ start_control (codes "1") (codes "play") none ∷ []
on_message_control_example =
    on_message_control stamp_text (pos 6) (codes "1") (pos 5) (codes "play") none stamp_fits
      (λ h. cc)

run_heartbeat_silent_example :
    let t1 = silent_tick 1500000 1 7 in
    let t2 = silent_tick 1500000 2 900000 in
    let t3 = silent_tick 1500000 3 0 in
    let t4 = silent_tick 1500000 4 0 in
    run_heartbeat stamp_text (t1 ∷ t2 ∷ t3 ∷ t4 ∷ [])
    ≡ ping_at stamp_text t1
      ∷ ping_at stamp_text t2
      ∷ (if 1500000 % 1000000 + 0 == 0 then ping_at stamp_text t3 ∷ closing else closing)
run_heartbeat_silent_example =
    run_heartbeat_silent stamp_text 1500000 7 900000 0 0 [] (omega arith) (omega arith)

handle_now_playing-TellsMessage_example :
    ((told.info ≡ none) × ((handle_now_playing told).0 ≡ 404))
    ⊎ TellsMessage stamp_text told (handle_now_playing told)
handle_now_playing-TellsMessage_example =
    handle_now_playing-TellsMessage stamp_text first_byte told process_events-IsConsistent_example

abbrev base : List Text
base = codes "C:" ∷ codes "themes" ∷ []

abbrev page : List Text
page = codes "C:" ∷ codes "themes" ∷ codes "b" ∷ []

base-IsPlain : All IsPlain base
unfolding text_eq contains_rune
base-IsPlain = (
  named-IsPlain (codes "C:") (refl, refl) refl refl,
  (named-IsPlain (codes "themes") (refl, refl) refl refl, tt),
)

page_allowed : safe_join text_eq some (some base) (codes "/a/../b") ≡ some page
unfolding safe_join join clean_onto components contains_rune trim_slashes below text_eq
page_allowed = refl

some_keeps : (p q : List Text) → some p ≡ some q → All IsPlain p → All IsPlain q
some_keeps p q e h = let same : p ≡ q = cc in subst (All IsPlain) same h

safe_join-Below_example : Below text_eq base page × All IsPlain page
safe_join-Below_example =
    safe_join-Below text_eq some some_keeps base (codes "/a/../b") base-IsPlain page_allowed

abbrev write_op : FileOp
write_op = record { create = false; write = true; remove = false; rename = false; chmod = false }

write_is_change : is_change write_op ≡ true
unfolding is_change
write_is_change = refl

hot_reload_once_example :
    let told = told_by (codes "r") write_op 1000 (1200 ∷ 1600 ∷ []) in
    (told [] ≡ [])
    × (told (timer_seen 2000 ∷ []) ≡ [])
    × (told (timer_seen 2000 ∷ timer_seen 2200 ∷ []) ≡ codes "r" ∷ [])
    × (told (timer_seen 2000 ∷ timer_seen 2200 ∷ timer_seen 3000 ∷ []) ≡ codes "r" ∷ [])
hot_reload_once_example =
    hot_reload_once (codes "r") write_op 1000 (1200 ∷ 1600 ∷ []) 2000 2200 3000 write_is_change
      (omega arith, (omega arith, tt)) (omega arith) (omega arith)
