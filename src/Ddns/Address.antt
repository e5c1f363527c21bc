-- ===== src/Ddns/Address.antt =====
-- Finding an address in a text, and whether it may be sent (`is_address_valid`,
-- `parse_ipv4_address`, `parse_ipv6_address` and `parse_my_address` of src/ddns.c).
pub mod Runs
pub mod Find
pub mod Policy
use inadyn.Prelude.{
  ℕ, zero, suc, ◌+◌, ◌-◌, ◌*◌, ◌/◌, ◌^◌, Bool, true, false, not, ◌&&◌, ◌||◌, Option, none, some,
  List, [], ◌∷◌, ◌==◌, leb, ltb, any, all, if◌then◌else◌, length, take,
}
use inadyn.Prelude.Text.{Str, codes, starts_with, is_digit}
use inadyn.World.{Family, inet, inet6, unspec}
use inadyn.Ddns.State.{Options}

-- inet_pton and inet_ntop of the system: an IPv4 address as a number in host order, an IPv6 address
-- as its sixteen bytes.
pub record Inet : Type 0 where
  pub pton4 : Str → Option ℕ
  pub ntop4 : ℕ → Str
  pub pton6 : Str → Option (List ℕ)
  pub ntop6 : List ℕ → Str

-- IN_ZERONET, IN_LOOPBACK and IN_LINKLOCAL of include/os.h, IN_MULTICAST and IN_EXPERIMENTAL of
-- <netinet/in.h>: 0/8, 127/8, 169.254/16, 224/4 and 224/3.
unfoldable pub is_local_ipv4 : ℕ → Bool
is_local_ipv4 addr =
    addr / 2 ^ 24 == 0
    || addr / 2 ^ 24 == 127
    || addr / 2 ^ 16 == 0xa9fe
    || addr / 2 ^ 28 == 14
    || addr / 2 ^ 29 == 7

-- Whether all bytes but the last are zero, and the last is `b`.
abbrev pub is_zeros_then : ℕ → List ℕ → Bool
is_zeros_then b [] = false
is_zeros_then b (x ∷ []) = x == b
is_zeros_then b (x ∷ y ∷ rest) = x == 0 && is_zeros_then b (y ∷ rest)

-- The top ten bits of an address: 1111111010 is link-local, 1111111011 is site-local.
abbrev pub top_ten_bits : List ℕ → ℕ
top_ten_bits (x ∷ y ∷ rest) = x * 4 + y / 64
top_ten_bits _ = 0

unfoldable pub is_local_ipv6 : List ℕ → Bool
is_local_ipv6 addr =
    is_zeros_then 0 addr
    || is_zeros_then 1 addr
    || top_ten_bits addr == 0x3fa
    || top_ten_bits addr == 0x3fb

-- Addresses of Cloudflare's resolvers, which its own answers hold.
abbrev pub except : List Str
except =
    codes "1.1.1.1"
    ∷ codes "1.0.0.1"
    ∷ codes "2606:4700:4700::1111"
    ∷ codes "2606:4700:4700::1001"
    ∷ codes "1.1.1.2"
    ∷ codes "1.0.0.2"
    ∷ codes "2606:4700:4700::1112"
    ∷ codes "2606:4700:4700::1002"
    ∷ codes "1.1.1.3"
    ∷ codes "1.0.0.3"
    ∷ codes "2606:4700:4700::1113"
    ∷ codes "2606:4700:4700::1003"
    ∷ codes "2606:4700:4700::64"
    ∷ codes "2606:4700:4700::6400"
    ∷ []

-- `!strncmp (host, except[i], strlen (host))`: a host that begins an entry counts too.
unfoldable pub is_excepted : Str → Bool
is_excepted host = any (λ entry. starts_with entry host) except

unfoldable pub is_address_valid : Inet → Options → Family → Str → Bool
is_address_valid lib opts family host =
    if is_excepted host then false else if not opts.verify_addr then true else elim family [
      | inet ↦ elim (lib.pton4 host) [ none ↦ false | some addr ↦ not (is_local_ipv4 addr) ]
      | inet6 ↦
          if opts.allow_ipv6
          then elim (lib.pton6 host) [ none ↦ false | some addr ↦ not (is_local_ipv6 addr) ]
          else false
      | unspec ↦ false
    ]

-- strpbrk: the text from the first accepted byte on.
unfoldable pub strpbrk : (ℕ → Bool) → Str → Option Str
strpbrk accept [] = none
strpbrk accept (c ∷ s) = if accept c then some (c ∷ s) else strpbrk accept s

-- The bytes that strspn counts, and those behind them.
unfoldable pub span : (ℕ → Bool) → Str → Str
span accept [] = []
span accept (c ∷ s) = if accept c then c ∷ span accept s else []

unfoldable pub behind : (ℕ → Bool) → Str → Str
behind accept [] = []
behind accept (c ∷ s) = if accept c then behind accept s else c ∷ s

-- `needle + num + 1`; past the end of the text the loop stops.
abbrev pub tail : Str → Str
tail [] = []
tail (c ∷ s) = s

-- The loop of both parsers: `candidate` is what is done with a run of accepted bytes. The test
-- `haystack < end` is that two bytes are left, since `end` is the last byte. `none` is "not found".
unfoldable pub search_address : (ℕ → Bool) → (Str → Option Str) → ℕ → Str → Option Str
search_address accept candidate zero haystack = none
search_address accept candidate (suc fuel) haystack =
    if leb 2 (length haystack)
    then elim (strpbrk accept haystack) [
      | none ↦ none
      | some needle ↦ elim (candidate (span accept needle)) [
        | some address ↦ some address
        | none ↦ search_address accept candidate fuel (tail (behind accept needle))
      ]
    ]
    else none

abbrev pub accept4 : ℕ → Bool
accept4 c = is_digit c || c == b'.'

abbrev pub accept6 : ℕ → Bool
accept6 c = is_digit c || (leb b'a' c && leb c b'f') || (leb b'A' c && leb c b'F') || c == b':'

-- inet_pton, then inet_ntop into `address`, then the test of that text.
unfoldable pub candidate4 : Inet → Options → Str → Option Str
candidate4 lib opts run = elim (lib.pton4 run) [
  | none ↦ none
  | some addr ↦
      if is_address_valid lib opts inet (lib.ntop4 addr) then some (lib.ntop4 addr) else none
]

unfoldable pub candidate6 : Inet → Options → Str → Option Str
candidate6 lib opts run = elim (lib.pton6 run) [
  | none ↦ none
  | some addr ↦
      if is_address_valid lib opts inet6 (lib.ntop6 addr) then some (lib.ntop6 addr) else none
]

unfoldable pub parse_ipv4_address : Inet → Options → Str → Option Str
parse_ipv4_address lib opts buffer =
    search_address accept4 (candidate4 lib opts) (suc (length buffer)) buffer

unfoldable pub parse_ipv6_address : Inet → Options → Str → Option Str
parse_ipv6_address lib opts buffer =
    search_address accept6 (candidate6 lib opts) (suc (length buffer)) buffer

-- `none` is the return code 1.
unfoldable pub parse_my_address : Inet → Options → Str → Option Str
parse_my_address lib opts buffer = elim (parse_ipv6_address lib opts buffer) [
  | some address ↦ some address
  | none ↦ parse_ipv4_address lib opts buffer
]
