-- ===== src/Gui/Serving/Addresses.antt =====
-- The addresses that the window shows for the server.
use smtc_now_playing.Prelude.{
  some, List, [], ◌∷◌, ◌++◌, Text, codes, text_eq, text_ne, if◌then◌else◌, ◌≡◌, ◌≢◌, refl, ap, sym,
  ◌∙◌, arith, append_assoc, append-nil, inl, inr,
}
use smtc_now_playing.Prelude.Tests.{Bool-cases}
use smtc_now_playing.Prelude.Int.{ℤ, pos, negsuc}
use smtc_now_playing.Prelude.Decimal.{print_int, decimal-ne}
use smtc_now_playing.Config.{Config}
use smtc_now_playing.Server.Running.{http_address}
use smtc_now_playing.Gui.{Interface, unparsed, ipv6, ipv4, World}
use smtc_now_playing.Gui.Serving.{host_url, address_port, add_address, add_addresses, addresses}

-- The addresses by this computer's own name, and those by another one.
abbrev pub local_urls : Text → List Interface → List Text
local_urls port [] = []
local_urls port (unparsed ∷ l) = local_urls port l
local_urls port (ipv6 ∷ l) = local_urls port l
local_urls port (ipv4 ip ∷ l) =
    if text_eq ip (codes "127.0.0.1")
    then host_url port (codes "localhost") ∷ local_urls port l
    else local_urls port l

abbrev pub other_urls : Text → List Interface → List Text
other_urls port [] = []
other_urls port (unparsed ∷ l) = other_urls port l
other_urls port (ipv6 ∷ l) = other_urls port l
other_urls port (ipv4 ip ∷ l) =
    if text_eq ip (codes "127.0.0.1")
    then other_urls port l
    else host_url port ip ∷ other_urls port l

-- The local addresses are all the same, so that one may come first or last.
local_urls-shift :
    (port : Text) (l : List Interface) (rest : List Text)
    → local_urls port l ++ host_url port (codes "localhost") ∷ rest
      ≡ host_url port (codes "localhost") ∷ (local_urls port l ++ rest)
local_urls-shift port [] rest = refl
local_urls-shift port (unparsed ∷ l) rest = local_urls-shift port l rest
local_urls-shift port (ipv6 ∷ l) rest = local_urls-shift port l rest
local_urls-shift port (ipv4 ip ∷ l) rest = elim (Bool-cases (text_eq ip (codes "127.0.0.1"))) [
  | inl e ↦ rw e (ap (λ t. host_url port (codes "localhost") ∷ t) (local_urls-shift port l rest))
  | inr e ↦ rw e (local_urls-shift port l rest)
]

add_addresses_lem :
    (port : Text) (l : List Interface) (acc : List Text)
    → add_addresses port acc l ≡ local_urls port l ++ (acc ++ other_urls port l)
unfolding add_addresses add_address
add_addresses_lem port [] acc = sym (append-nil acc)
add_addresses_lem port (unparsed ∷ l) acc = add_addresses_lem port l acc
add_addresses_lem port (ipv6 ∷ l) acc = add_addresses_lem port l acc
add_addresses_lem port (ipv4 ip ∷ l) acc = elim (Bool-cases (text_eq ip (codes "127.0.0.1"))) [
  | inl e ↦ rw e (
      add_addresses_lem port l (host_url port (codes "localhost") ∷ acc)
      ∙ local_urls-shift port l (acc ++ other_urls port l))
  | inr e ↦ rw e (
      add_addresses_lem port l (acc ++ host_url port ip ∷ [])
      ∙ ap (λ t. local_urls port l ++ t)
          (append_assoc acc (host_url port ip ∷ []) (other_urls port l)))
]

print_int-ne : (n : ℤ) → print_int n ≢ []
unfolding print_int
print_int-ne (pos n) h = decimal-ne n h
print_int-ne (negsuc n) h = cc

address_port-http_address : (c : Config) → address_port (http_address c) ≡ print_int c.server.port
unfolding address_port http_address
address_port-http_address c = refl

-- For the server's own address the window lists the local addresses first, then those of the other IPv4
-- interfaces in their order, all with the configured port.
pub addresses-http_address :
    (w : World) (c : Config) (l : List Interface)
    → w.address ≡ http_address c
    → w.interfaces ≡ some l
    → addresses w
      ≡ some (local_urls (print_int c.server.port) l ++ other_urls (print_int c.server.port) l)
unfolding addresses
addresses-http_address w c l at listed = ground (
  arith,
  text_ne (print_int c.server.port) [] (print_int-ne c.server.port),
  address_port-http_address c,
  add_addresses_lem (print_int c.server.port) l [],
)
