-- ===== src/Fetcher/Ssrf.antt =====
-- internal/fetcher/ssrf.go: the destinations that a crawl must not reach. An address is that of IPv4, also where
-- it is written as a mapped one, or of IPv6; the dial hook that applies the guard is net.Dialer's.
pub mod Blocks
use rabbot_seo.Base.{
  ℕ, ◌+◌, ◌*◌, ◌/◌, ◌%◌, String, Bool, true, false, not, ◌&&◌, ◌||◌, Option, none, some, List, [],
  ◌∷◌, leb, ◌==◌, if◌then◌else◌, str_eq, codes, to_lower, map,
}

pub data Ip : Type 0 where
  v4 : ℕ → Ip
  v6 : ℕ → Ip

-- A parsed URL: its text, its scheme in lower case, its host without the port, and the address that the host
-- spells, if it spells one.
pub record Url : Type 0 where
  pub text : String
  pub scheme : String
  pub hostname : String
  pub ip : Option Ip

-- An address, of its four bytes.
abbrev pub bytes4 : ℕ → ℕ → ℕ → ℕ → ℕ
bytes4 a b c d = ((a * 256 + b) * 256 + c) * 256 + d

abbrev pub metadata_ipv4 : ℕ
metadata_ipv4 = bytes4 169 254 169 254

-- Predicates of net.IP, of the top byte, the top two and the top three bytes.
abbrev pub byte1 : ℕ → ℕ
byte1 n = n / 16777216

abbrev pub byte2 : ℕ → ℕ
byte2 n = n / 65536 % 256

abbrev pub byte3 : ℕ → ℕ
byte3 n = n / 256 % 256

-- The top eight bits of an IPv6 address, the eight below them, and the top 96.
abbrev pub top8 : ℕ → ℕ
top8 n = n / 1329227995784915872903807060280344576

abbrev pub next8 : ℕ → ℕ
next8 n = n / 5192296858534827628530496329220096 % 256

abbrev pub top96 : ℕ → ℕ
top96 n = n / 4294967296

abbrev pub is_loopback : Ip → Bool
is_loopback (v4 n) = byte1 n == 127
is_loopback (v6 n) = n == 1

abbrev pub is_private : Ip → Bool
is_private (v4 n) =
    (byte1 n == 10)
    || ((byte1 n == 172) && (byte2 n / 16 == 1))
    || ((byte1 n == 192) && (byte2 n == 168))
is_private (v6 n) = top8 n / 2 == 126

abbrev pub is_unspecified : Ip → Bool
is_unspecified (v4 n) = n == 0
is_unspecified (v6 n) = n == 0

abbrev pub is_link_local_unicast : Ip → Bool
is_link_local_unicast (v4 n) = (byte1 n == 169) && (byte2 n == 254)
is_link_local_unicast (v6 n) = (top8 n == 254) && (next8 n / 64 == 2)

abbrev pub is_link_local_multicast : Ip → Bool
is_link_local_multicast (v4 n) = (byte1 n == 224) && (byte2 n == 0) && (byte3 n == 0)
is_link_local_multicast (v6 n) = (top8 n == 255) && (next8 n % 16 == 2)

abbrev pub is_multicast : Ip → Bool
is_multicast (v4 n) = byte1 n / 16 == 14
is_multicast (v6 n) = top8 n == 255

-- The five prefixes of `deniedPrefixes`.
abbrev pub in_denied_prefix : Ip → Bool
in_denied_prefix (v4 n) =
    (byte1 n == 0)
    || ((byte1 n == 100) && (byte2 n / 64 == 1))
    || ((byte1 n == 192) && (byte2 n == 0) && (byte3 n == 0))
    || ((byte1 n == 198) && (byte2 n / 2 == 9))
in_denied_prefix (v6 n) = top96 n == 122099644659926101980610560

abbrev is_metadata : Ip → Bool
is_metadata (v4 n) = n == metadata_ipv4
is_metadata (v6 n) = false

unfoldable pub ip_disallowed : Ip → Bool
ip_disallowed ip =
    is_metadata ip
    || is_loopback ip
    || is_private ip
    || is_unspecified ip
    || is_link_local_unicast ip
    || is_link_local_multicast ip
    || is_multicast ip
    || in_denied_prefix ip

abbrev pub is_web_scheme : String → Bool
is_web_scheme scheme = str_eq scheme "http" || str_eq scheme "https"

abbrev pub names_disallowed : Url → Bool
names_disallowed u = elim u.ip [ none ↦ false | some ip ↦ ip_disallowed ip ]

pub data UrlError : Type 0 where
  not_parseable wrong_scheme no_host disallowed_destination : UrlError

unfoldable pub validate_parsed : Bool → Url → Option UrlError
validate_parsed allow_private u =
    if not (is_web_scheme u.scheme)
    then some wrong_scheme
    else if str_eq u.hostname ""
    then some no_host
    else if not allow_private && names_disallowed u
    then some disallowed_destination
    else none

-- `none` is no error.
pub validate_site_url : (String → Option Url) → String → Bool → Option UrlError
unfolding validate_parsed
validate_site_url parse raw allow_private = elim (parse raw) [
  | none ↦ some not_parseable
  | some u ↦ validate_parsed allow_private u
]

unfoldable pub redirect_allowed : Url → Bool
redirect_allowed u = is_web_scheme u.scheme && not (names_disallowed u)
