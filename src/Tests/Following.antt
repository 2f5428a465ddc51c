-- ===== src/Tests/Following.antt =====
-- A client that connects and follows the server at concrete inputs.
use smtc_now_playing.Prelude.{
  ℕ, false, some, List, [], ◌∷◌, ◌++◌, Text, codes, take, length, ◌≡◌, inl, refl, ap, arith,
}
use smtc_now_playing.Prelude.Int.{ℤ, pos, negsuc}
use smtc_now_playing.Json.{end}
use smtc_now_playing.Smtc.Types.{info_event, device_changed_event}
use smtc_now_playing.Wsproto.{Envelope, new_info, new_reload}
use smtc_now_playing.Server.Hub
use smtc_now_playing.Server.Hub.{new_hub}
use smtc_now_playing.Server.Hub.Set.{count}
use smtc_now_playing.Server.Hub.Runs.{IsValid, adding, broadcasting, taking, move}
use smtc_now_playing.Server.State.{
  Server, no_snapshot, handle_event, handle_info_event, bytes_equal,
}
use smtc_now_playing.Server.State.Tracking.{IsConsistent}
use smtc_now_playing.Server.State.Following.{look}
use smtc_now_playing.Server.State.Turns.{
  Turn, event_handled, hub_moved, Undisturbed, served, written,
}
use smtc_now_playing.Server.Connection.{Action, on_open}
use smtc_now_playing.Server.Connection.Greeting.{texts, with_conn, on_open_seen}
use smtc_now_playing.Tests.{domain_song}

-- A text that tells the type after its length, and the time, in the place of the encoder's.
abbrev stamp : ℤ → ℕ
stamp (pos n) = n
stamp (negsuc n) = 0

abbrev marshal : Envelope → Text
marshal e = length e.type ∷ e.type ++ stamp e.ts ∷ []

abbrev type_of : Text → Text
type_of [] = []
type_of (n ∷ t) = take n t

take-append : (a b : Text) → take (length a) (a ++ b) ≡ a
take-append [] [] = refl
take-append [] (y ∷ b) = refl
take-append (x ∷ a) b = ap (λ l. x ∷ l) (take-append a b)

typed : (e : Envelope) → type_of (marshal e) ≡ e.type
typed e = take-append e.type (stamp e.ts ∷ [])

abbrev sum_of : Text → Text
sum_of t = []

abbrev idle_server : Server
idle_server = record { state = no_snapshot; hub = new_hub }

-- Before the greeting the hub adds the client, and writes a song to it; after it there is a reload.
abbrev before : List Turn
before =
    hub_moved taking
    ∷ event_handled (pos 1000) (info_event domain_song)
    ∷ hub_moved taking
    ∷ hub_moved (adding 8)
    ∷ []

abbrev after : List Turn
after =
    hub_moved taking
    ∷ event_handled (pos 1001) (device_changed_event [])
    ∷ hub_moved (broadcasting (marshal (new_reload (pos 1))))
    ∷ hub_moved taking
    ∷ []

abbrev greeted_server : Server
greeted_server = served marshal sum_of before (with_conn 7 idle_server)

before-Undisturbed : Undisturbed type_of marshal sum_of 7 before (with_conn 7 idle_server)
unfolding handle_event handle_info_event move bytes_equal new_info new_reload Hub.take Hub.broadcast
    Hub.add Hub.handle
before-Undisturbed = (tt, (refl, (tt, (tt, tt))))

after-Undisturbed : Undisturbed type_of marshal sum_of 7 after greeted_server
unfolding handle_event handle_info_event move bytes_equal new_info new_reload Hub.take Hub.broadcast
    Hub.add Hub.handle
after-Undisturbed = (tt, (refl, (refl, (tt, tt))))

after_end : (served marshal sum_of after greeted_server).hub.ch ≡ []
unfolding handle_event handle_info_event move bytes_equal new_info new_reload Hub.take Hub.broadcast
    Hub.add Hub.handle
after_end = refl

idle_server-IsConsistent : IsConsistent marshal sum_of no_snapshot
idle_server-IsConsistent = (inl (refl, refl, refl, refl), inl (refl, refl))

new_hub-IsValid : IsValid new_hub
unfolding count
new_hub-IsValid = record { fits = omega arith; once = (λ c. omega arith) }

no_conn : Hub.contains 7 idle_server.hub.connections ≡ false
unfolding Hub.contains
no_conn = refl

on_open_seen_example :
    let later = served marshal sum_of after greeted_server in
    (actions : List Action) × (on_open marshal
        (codes "1")
        end
        []
        (pos 999)
        7
        (served marshal sum_of before)
        idle_server
      ≡ some (greeted_server, actions))
    × (look type_of
          (written marshal sum_of 7 before (with_conn 7 idle_server)
            ++ (texts actions ++ written marshal sum_of 7 after greeted_server))
          ([], [])
        ≡ (later.state.info_json, later.state.progress_json))
on_open_seen_example =
    on_open_seen type_of marshal sum_of typed (codes "1") end [] (pos 999) 7 idle_server before
      after idle_server-IsConsistent new_hub-IsValid tt no_conn refl before-Undisturbed
      after-Undisturbed after_end
