-- ===== src/Server/Connection/Greeting.antt =====
-- A client from the opening of its connection on, with the greeting and what the hub writes afterwards.
-- From its reading of the snapshot on, `OnOpen` is one step here.
use smtc_now_playing.Prelude.{
  ℕ, Bool, true, false, some, List, [], ◌∷◌, ◌++◌, Text, text_eq, ◌==◌, ◌||◌, if◌then◌else◌, ◌≡◌,
  ◌≢◌, ◌⊎◌, inl, inr, refl, sym, ap, subst, ◌∙◌, ==_iff, arith,
}
use smtc_now_playing.Prelude.Int.{ℤ}
use smtc_now_playing.Json.{Fields}
use smtc_now_playing.Smtc.Types.{SessionInfo}
use smtc_now_playing.Wsproto.{
  Envelope, msg_info, msg_progress, new_hello, new_info, new_progress, new_sessions,
}
use smtc_now_playing.Server.Hub.{
  HubCmd, add_conn, remove_conn, broadcast_cmd, shutdown_hub, contains, room, send, add,
}
use smtc_now_playing.Server.Hub.Runs.{IsValid, NoRemoval, member, send-IsValid}
use smtc_now_playing.Server.Hub.Delivery.{delivered}
use smtc_now_playing.Server.State.{Snapshot, Server, album_art_url, clone_info_data}
use smtc_now_playing.Server.State.Tracking.{IsConsistent}
use smtc_now_playing.Server.State.Following.{Seen, see, look, look-append, Follows}
use smtc_now_playing.Server.State.Parts.{
  jsons, song, progress, Setting, UpToDate, look_info_cases, look_progress_cases,
}
use smtc_now_playing.Server.State.Waiting.{Waits, turns-Waits, served-IsConsistent}
use smtc_now_playing.Server.State.Turns.{
  Turn, served, written as written_to, Undisturbed, turns_seen,
}
use smtc_now_playing.Server.Connection.{
  Action, write_message, touch_heartbeat, written, sessions_message, session_infos_to_domain,
  greeting, on_open,
}

-- The text messages among what is done.
unfoldable pub texts : List Action → List Text
texts [] = []
texts (write_message msg ∷ actions) = msg ∷ texts actions
texts (_ ∷ actions) = texts actions

texts-append : (a b : List Action) → texts (a ++ b) ≡ texts a ++ texts b
unfolding texts
texts-append [] b = refl
texts-append (write_message msg ∷ a) b = ap (λ l. msg ∷ l) (texts-append a b)
texts-append (_ ∷ a) b = texts-append a b

-- Commands that do not name the connection, and no shutdown.
abbrev pub Unnamed : ℕ → List HubCmd → Type 0
Unnamed c [] = Unit
Unnamed c (add_conn d ∷ cmds) = (d ≢ c) × Unnamed c cmds
Unnamed c (remove_conn d ∷ cmds) = (d ≢ c) × Unnamed c cmds
Unnamed c (broadcast_cmd msg ∷ cmds) = Unnamed c cmds
Unnamed c (shutdown_hub ∷ cmds) = ⊥

-- A connection that is added after them gets none of their messages.
abbrev Added : ℕ → Bool → List HubCmd → Type 0
Added c b cmds = NoRemoval c cmds × (delivered cmds c b ≡ []) × (member cmds c b ≡ true)

Unnamed-Added :
    (cmds : List HubCmd) (c : ℕ) → Unnamed c cmds → Added c false (cmds ++ add_conn c ∷ [])
Unnamed-Added [] c u = (tt, refl, ground arith)
Unnamed-Added (add_conn d ∷ cmds) c (n, u) =
    let other : (d == c) ≡ false = ground (arith, ==_iff d c) in
    subst (λ b. Added c (b || false) (cmds ++ add_conn c ∷ [])) (sym other) (Unnamed-Added cmds c u)
Unnamed-Added (remove_conn d ∷ cmds) c (n, u) =
    let other : (d == c) ≡ false = ground (arith, ==_iff d c) in
    let (kept, silent, there) =
      subst (λ b. Added c (if b then false else false) (cmds ++ add_conn c ∷ [])) (sym other)
        (Unnamed-Added cmds c u) in
    ((n, kept), silent, there)
Unnamed-Added (broadcast_cmd msg ∷ cmds) c u = Unnamed-Added cmds c u
Unnamed-Added (shutdown_hub ∷ cmds) c u = absurd u

-- The server once the hub has been asked to add a connection.
abbrev pub with_conn : ℕ → Server → Server
with_conn c s = record s { hub = send (add_conn c) s.hub }

-- A message that is written is seen, and none leaves what was seen.
abbrev if_told : Text → Text → Text
if_told [] seen = seen
if_told (x ∷ msg) seen = x ∷ msg

-- What is written of a part, and then what waits, lead to the snapshot's.
part_told :
    (part : Seen → Text) (f : Seen → Seen) (msg : Text) (v w j : Seen)
    → Setting part (λ x. part (f x))
    → part j ≡ msg
    → part w ≡ if_told msg (part v)
    → part (f j) ≡ part j
    → UpToDate (part (f v)) msg
    → part (f w) ≡ part j
part_told part f msg v w j (inl (k, sets)) is_msg seen settled up = sets w ∙ sym (sets j) ∙ settled
part_told part f [] v w j (inr keeps) is_msg seen settled (inl e) =
    keeps w ∙ seen ∙ sym (keeps v) ∙ e ∙ sym is_msg
part_told part f [] v w j (inr keeps) is_msg seen settled (inr e) =
    keeps w ∙ seen ∙ sym (keeps v) ∙ e ∙ sym is_msg
part_told part f (x ∷ msg) v w j (inr keeps) is_msg seen settled up = keeps w ∙ seen ∙ sym is_msg

module _ (type_of : Text → Text) where
  look_info :
      (msg : Text) (v : Seen)
      → (msg ≡ []) ⊎ (type_of msg ≡ msg_info)
      → look type_of (texts (written msg)) v ≡ (if_told msg v.0, v.1)
  unfolding look texts text_eq
  look_info [] v h = refl
  look_info (x ∷ msg) v (inl e) = absurd cc
  look_info (x ∷ msg) v (inr e) = rw e refl

  look_progress :
      (msg : Text) (v : Seen)
      → (msg ≡ []) ⊎ (type_of msg ≡ msg_progress)
      → look type_of (texts (written msg)) v ≡ (v.0, if_told msg v.1)
  unfolding look texts text_eq
  look_progress [] v h = refl
  look_progress (x ∷ msg) v (inl e) = absurd cc
  look_progress (x ∷ msg) v (inr e) = rw e refl

  module _ (marshal : Envelope → Text) (sha256_hex : Text → Text)
      (typed : (e : Envelope) → type_of (marshal e) ≡ e.type) where
    info_json_typed :
        (s : Snapshot)
        → IsConsistent marshal sha256_hex s
        → (s.info_json ≡ []) ⊎ (type_of s.info_json ≡ msg_info)
    unfolding new_info
    info_json_typed s (inl (_, none_yet, _, _), _) = inl none_yet
    info_json_typed s (inr (d, now, _, _, _, _, told), _) = inr (
        ap type_of told ∙ typed (new_info (clone_info_data d) (album_art_url s.album_art_hash) now))

    progress_json_typed :
        (s : Snapshot)
        → IsConsistent marshal sha256_hex s
        → (s.progress_json ≡ []) ⊎ (type_of s.progress_json ≡ msg_progress)
    unfolding new_progress
    progress_json_typed s (_, inl (_, none_yet)) = inl none_yet
    progress_json_typed s (_, inr (d, now, _, told)) =
        inr (ap type_of told ∙ typed (new_progress d now))

    look_sessions :
        (sessions : List SessionInfo) (now : ℤ) (v : Seen)
        → look type_of (texts (sessions_message marshal sessions now)) v ≡ v
    unfolding look texts new_sessions text_eq
    look_sessions [] now v = refl
    look_sessions (x ∷ xs) now v =
        rw (typed (new_sessions (session_infos_to_domain (x ∷ xs)) now)) refl

    see_hello :
        (version : Text) (caps : Fields) (now : ℤ) (v : Seen)
        → see type_of (marshal (new_hello version caps now)) v ≡ v
    unfolding new_hello text_eq
    see_hello version caps now v = rw (typed (new_hello version caps now)) refl

    look-greeting :
        (version : Text) (caps : Fields) (sessions : List SessionInfo) (now : ℤ) (s : Snapshot)
        (v : Seen)
        → IsConsistent marshal sha256_hex s
        → look type_of (texts (touch_heartbeat ∷ greeting marshal version caps sessions now s)) v
          ≡ (if_told s.info_json v.0, if_told s.progress_json v.1)
    unfolding greeting texts look
    look-greeting version caps sessions now s v h =
        let i = written s.info_json in
        let p = written s.progress_json in
        let q = sessions_message marshal sessions now in
        let split = texts-append (i ++ p) q ∙ ap (λ l. l ++ texts q) (texts-append i p) in
        let w : Seen = (if_told s.info_json v.0, v.1) in
        let both =
          look-append type_of (texts i) (texts p) v
          ∙ ap (look type_of (texts p)) (look_info s.info_json v (info_json_typed s h))
          ∙ look_progress s.progress_json w (progress_json_typed s h) in
        ap (look type_of (texts (i ++ p ++ q))) (see_hello version caps now v)
        ∙ ap (λ l. look type_of l v) split
        ∙ look-append type_of (texts i ++ texts p) (texts q) v
        ∙ ap (look type_of (texts q)) both
        ∙ look_sessions sessions now (if_told s.info_json v.0, if_told s.progress_json v.1)

    -- The greeting brings a client that was added, and may have got messages already, up to date.
    greeting-Follows :
        (version : Text) (caps : Fields) (sessions : List SessionInfo) (now : ℤ) (c : ℕ) (v : Seen)
        (s : Server)
        → IsConsistent marshal sha256_hex s.state
        → Waits type_of c v s
        → Follows type_of c
            (look type_of
              (texts (touch_heartbeat ∷ greeting marshal version caps sessions now s.state))
              v)
            s
    greeting-Follows version caps sessions now c v s h f =
        let cmds = delivered s.hub.ch c (contains c s.hub.connections) in
        let waits = look type_of cmds in
        let j = jsons s.state in
        let w : Seen = (if_told s.state.info_json v.0, if_told s.state.progress_json v.1) in
        let greeted = look-greeting version caps sessions now s.state v h in
        record {
          valid = f.valid;
          staying = f.staying;
          included = f.included;
          synced =
              ap waits greeted
              ∙ ap (λ a. (a, progress (waits w)))
                  (part_told song waits s.state.info_json v w j (look_info_cases type_of cmds) refl
                    refl (ap song f.settled) f.song_seen)
              ∙ ap (λ a. (s.state.info_json, a))
                  (part_told progress waits s.state.progress_json v w j
                    (look_progress_cases type_of cmds) refl refl (ap progress f.settled)
                    f.progress_seen);
        }

    -- A client that has just been added waits for nothing yet.
    with_conn-Waits :
        (c : ℕ) (s : Server)
        → IsValid s.hub
        → Unnamed c s.hub.ch
        → contains c s.hub.connections ≡ false
        → room s.hub ≡ true
        → Waits type_of c ([], []) (with_conn c s)
    unfolding look
    with_conn-Waits c s v u new free =
        let (kept, silent, there) = Unnamed-Added s.hub.ch c u in
        record {
          valid = send-IsValid (add_conn c) s.hub free v;
          staying = kept;
          included = rw new there;
          settled = rw (new, silent) refl;
          song_seen = rw (new, silent) (inr refl);
          progress_seen = rw (new, silent) (inr refl);
        }

    on_open-room :
        (version : Text) (caps : Fields) (sessions : List SessionInfo) (now : ℤ) (c : ℕ)
        (meanwhile : Server → Server) (s : Server)
        → room s.hub ≡ true
        → let t = meanwhile (with_conn c s) in
          on_open marshal version caps sessions now c meanwhile s
          ≡ some (t, touch_heartbeat ∷ greeting marshal version caps sessions now t.state)
    unfolding on_open add
    on_open-room version caps sessions now c meanwhile s free = rw (on_open, add, free) refl

    -- A client that connects, while the snapshot is consistent, the hub is within its bounds, has room and
    -- does not name the client yet, is greeted; and whatever events, calls of the hub and rounds there
    -- are between the hub's adding it and the reading of the snapshot for its greeting, and after the
    -- greeting, as long as events find room for their messages, others broadcast only reloads, the
    -- client is not removed and the hub not ended: when no command waits, the messages of the song and
    -- the progress that the client has seen last are the snapshot's, if a message's type can be read
    -- from its text. This holds if nothing is handled and the hub does not write from the reading of
    -- the snapshot to the end of the greeting.
    pub on_open_seen :
        (version : Text) (caps : Fields) (sessions : List SessionInfo) (now : ℤ) (c : ℕ)
        (s : Server) (before after : List Turn)
        → IsConsistent marshal sha256_hex s.state
        → IsValid s.hub
        → Unnamed c s.hub.ch
        → contains c s.hub.connections ≡ false
        → room s.hub ≡ true
        → Undisturbed type_of marshal sha256_hex c before (with_conn c s)
        → let t = served marshal sha256_hex before (with_conn c s) in
          Undisturbed type_of marshal sha256_hex c after t
          → (served marshal sha256_hex after t).hub.ch ≡ []
          → let later = served marshal sha256_hex after t in
            (actions : List Action) × (on_open marshal version caps sessions now c
                (served marshal sha256_hex before)
                s
              ≡ some (t, actions))
            × (look type_of
                  (written_to marshal sha256_hex c before (with_conn c s)
                    ++ (texts actions ++ written_to marshal sha256_hex c after t))
                  ([], [])
                ≡ (later.state.info_json, later.state.progress_json))
    on_open_seen version caps sessions now c s before after h v u new free calm_before calm idle =
        let t = served marshal sha256_hex before (with_conn c s) in
        let early = written_to marshal sha256_hex c before (with_conn c s) in
        let late = written_to marshal sha256_hex c after t in
        let actions = touch_heartbeat ∷ greeting marshal version caps sessions now t.state in
        let seen = look type_of early ([], []) in
        let waits =
          turns-Waits type_of marshal sha256_hex typed before c ([], []) (with_conn c s) calm_before
            (with_conn-Waits c s v u new free) in
        let follows =
          greeting-Follows version caps sessions now c seen t
            (served-IsConsistent type_of marshal sha256_hex typed before (with_conn c s) h) waits in
        (
          actions,
          on_open-room version caps sessions now c (served marshal sha256_hex before) s free,
          look-append type_of early (texts actions ++ late) ([], [])
              ∙ look-append type_of (texts actions) late seen
              ∙ turns_seen type_of marshal sha256_hex typed after c
                  (look type_of (texts actions) seen) t calm follows idle,
        )
