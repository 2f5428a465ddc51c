-- ===== src/Gui/Serving.antt =====
-- internal/gui/gui.go: the settings that the controls hold, the start and stop of the server in the
-- window, and the preview.
pub mod Addresses
use smtc_now_playing.Prelude.{
  ℕ, zero, suc, Bool, true, false, Option, none, some, List, [], ◌∷◌, ◌++◌, Text, codes, text_eq,
  drop, ◌==◌, ◌&&◌, if◌then◌else◌,
}
use smtc_now_playing.Prelude.Int.{ℤ}
use smtc_now_playing.Prelude.Decimal.{decimal}
use smtc_now_playing.Config.{Config, ServerConfig, UiConfig}
use smtc_now_playing.Gui.{
  Gui, Call, Interface, unparsed, ipv6, ipv4, World, Act, ◌>>◌, nothing, call, change, reading,
  when, checked_atoi, enable_start, set_start_text, set_info, message_box, save, open_preview,
  close_preview, set_topmost, set_check, show_preview_box,
}

-- A port that does not parse leaves the old one.
abbrev pub port_or : ℤ → Option ℤ → ℤ
port_or old none = old
port_or old (some n) = n

-- The configuration after `syncConfig`.
unfoldable pub synced : World → Config → Config
synced w c = record c {
  server = record c.server { port = port_or c.server.port (checked_atoi w.port_text) };
  ui = record {
    theme = w.theme_text;
    auto_start = w.auto_start;
    start_minimized = w.start_minimized;
    show_preview_window = w.show_preview;
    preview_always_on_top = w.on_top;
  };
}

abbrev pub sync_config : World → Act
sync_config w = change λ g. record g { cfg = synced w g.cfg }

-- `cfg.Save`, whose error is only logged.
abbrev pub save_config : Act
save_config = reading λ g. call (save g.cfg)

abbrev pub has_prefix : Text → Text → Bool
has_prefix [] s = true
has_prefix (c ∷ p) [] = false
has_prefix (c ∷ p) (d ∷ s) = (c == d) && has_prefix p s

-- The port of an address that stands for every interface, and else none.
unfoldable pub address_port : Text → Text
address_port addr =
    if has_prefix (codes "0.0.0.0:") addr
    then drop 8 addr
    else if has_prefix (codes ":") addr
    then drop 1 addr
    else []

abbrev pub http_url : Text → Text
http_url host = codes "http://" ++ host

abbrev pub host_url : Text → Text → Text
host_url port ip = http_url (ip ++ (b':' ∷ port))

-- One round of the loop over the interfaces.
unfoldable pub add_address : Text → List Text → Interface → List Text
add_address port addresses unparsed = addresses
add_address port addresses ipv6 = addresses
add_address port addresses (ipv4 ip) =
    if text_eq ip (codes "127.0.0.1")
    then host_url port (codes "localhost") ∷ addresses
    else addresses ++ host_url port ip ∷ []

unfoldable pub add_addresses : Text → List Text → List Interface → List Text
add_addresses port addresses [] = addresses
add_addresses port addresses (i ∷ rest) = add_addresses port (add_address port addresses i) rest

abbrev pub interface_addresses : Text → Option (List Interface) → Option (List Text)
interface_addresses port none = none
interface_addresses port (some l) = some (add_addresses port [] l)

-- The addresses to show, `none` if the interfaces cannot be listed.
unfoldable pub addresses : World → Option (List Text)
addresses w =
    if text_eq (address_port w.address) []
    then some (http_url w.address ∷ [])
    else interface_addresses (address_port w.address) w.interfaces

-- `strings.Join` with a line break and two spaces.
abbrev pub new_line : Text
new_line = 13 ∷ 10 ∷ codes "  "

abbrev pub join_lines : List Text → Text
join_lines [] = []
join_lines (a ∷ []) = a
join_lines (a ∷ b ∷ rest) = a ++ (new_line ++ join_lines (b ∷ rest))

unfoldable pub preview_url : World → Text
preview_url w = codes "http://127.0.0.1:" ++ (w.port_text ++ (codes "?_t=" ++ decimal w.now))

unfoldable pub update_web_view_always_on_top : World → Act
update_web_view_always_on_top w = reading λ g. when g.preview (call (set_topmost w.on_top))

abbrev pub opened : World → Bool → Act
opened w false = nothing
opened w true = do change (λ g. record g { preview = true }); update_web_view_always_on_top w

abbrev pub create_absent : World → Bool → Act
create_absent w true = nothing
create_absent w false = do call (open_preview (preview_url w) w.on_top); opened w w.preview_opens

unfoldable pub create_web_view : World → Act
create_web_view w = reading λ g. create_absent w g.preview

unfoldable pub destroy_web_view : Act
destroy_web_view =
    reading λ g. when g.preview (call close_preview >> change (λ h. record h { preview = false }))

-- The callback `OnDestroy` of a preview. A preview that is closed from outside calls it; where
-- `Destroy` calls it too, it finds what `destroyWebView` leaves.
abbrev on_destroy_started : Bool → Act
on_destroy_started false = nothing
on_destroy_started true = do destroy_web_view; call (set_check show_preview_box false)

unfoldable pub on_destroy : Act
on_destroy = reading λ g. on_destroy_started g.server_started

abbrev pub shown : World → Option (List Text) → Act
shown w none = call message_box
shown w (some l) = do
  call (set_info (codes "Server listening on:" ++ (new_line ++ join_lines l)))
  call (set_start_text (codes "&Stop"))
  call (enable_start true)
  when w.show_preview (create_web_view w)

unfoldable pub start_web_server : World → Act
start_web_server w = do change (λ g. record g { server_started = true }); shown w (addresses w)

unfoldable pub stop_web_server : Act
stop_web_server = do
  call (enable_start false)
  change (λ g. record g { server_started = false })
  destroy_web_view
  call (set_info [])
  call (set_start_text (codes "&Start"))
  call (enable_start true)

-- The click on the button, and the row of the tray's menu: `running` is what the handler has read.
abbrev pub toggle : World → Bool → Act
toggle w true = stop_web_server
toggle w false = do sync_config w; save_config; start_web_server w
