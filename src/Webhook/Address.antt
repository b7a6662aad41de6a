-- ===== src/Webhook/Address.antt =====
-- The addresses that internal/services/webhook/service.go does not send to: `privateRanges`,
-- `isPrivateIP`, and the checks of URLs and of connections that ask it.
use gitwise.Prelude.{
  ℕ, ◌+◌, ◌*◌, String, Bool, false, not, ◌&&◌, Option, none, some, List, [], ◌∷◌, any, ◌==◌, leb,
  str_eq, if◌then◌else◌,
}
use Prim.Native.Nat.{◌/◌, ◌^◌}

-- `net.IP` as `IPNet.Contains` reads it: an IPv4 address (also one that is written as an IPv6 address)
-- is a number of 32 bits, any other address one of 128 bits.
pub data Ip : Type 0 where
  v4 v6 : ℕ → Ip

abbrev pub octets : ℕ → ℕ → ℕ → ℕ → ℕ
octets a b c d = a * 16_777_216 + b * 65_536 + c * 256 + d

-- `net.IPNet`: the network's number, and how many bits its mask leaves free
pub record IpNet : Type 0 where
  pub base : Ip
  pub free : ℕ

-- `IPNet.Contains`: an address of the same length, with the same bits under the mask
abbrev same_network : ℕ → Ip → Ip → Bool
same_network free (v4 n) (v4 m) = m / 2 ^ free == n / 2 ^ free
same_network free (v4 n) (v6 m) = false
same_network free (v6 n) (v4 m) = false
same_network free (v6 n) (v6 m) = m / 2 ^ free == n / 2 ^ free

abbrev pub contains : Ip → IpNet → Bool
contains ip r = same_network r.free r.base ip

abbrev pub private_ranges : List IpNet
private_ranges =
    record { base = v4 (octets 10 0 0 0); free = 24 }
    ∷ record { base = v4 (octets 172 16 0 0); free = 20 }
    ∷ record { base = v4 (octets 192 168 0 0); free = 16 }
    ∷ record { base = v4 (octets 127 0 0 0); free = 24 }
    ∷ record { base = v4 (octets 169 254 0 0); free = 16 }
    ∷ record { base = v6 1; free = 0 }
    ∷ record { base = v6 (0xfc00 * 2 ^ 112); free = 121 }
    ∷ record { base = v6 (0xfe80 * 2 ^ 112); free = 118 }
    ∷ []

unfoldable pub is_private_ip : Ip → Bool
is_private_ip ip = any (contains ip) private_ranges

-- `url.URL`, as far as it is asked
pub record Url : Type 0 where
  pub scheme : String
  pub host : String
  pub hostname : String

pub data UrlError : Type 0 where
  invalid_url private_url : UrlError

-- a host that is an address that is written out, and a private one
abbrev pub is_private_literal : Option Ip → Bool
is_private_literal none = false
is_private_literal (some ip) = is_private_ip ip

-- `url.Parse`, `net.ParseIP`
module _ (parse : String → Option Url) (parse_ip : String → Option Ip) where
  abbrev check_url : Option Url → Option UrlError
  check_url none = some invalid_url
  check_url (some u) =
      if not (str_eq u.scheme "http") && not (str_eq u.scheme "https")
      then some invalid_url
      else if str_eq u.host ""
      then some invalid_url
      else if is_private_literal (parse_ip u.hostname)
      then some private_url
      else none

  -- `validateURL`: none if the URL is fine
  unfoldable pub validate_url : String → Option UrlError
  unfolding is_private_ip
  validate_url raw = check_url (parse raw)

-- the dialer's `Control`: whether it lets a connection to this host be made; `split` is the host of
-- `net.SplitHostPort`
unfoldable pub control : (String → Option Ip) → Option String → Bool
control parse_ip none = false
control parse_ip (some host) = not (is_private_literal (parse_ip host))

-- `CheckRedirect`: whether the client follows one more redirection
unfoldable pub check_redirect : ℕ → Bool
check_redirect via = not (leb 3 via)
