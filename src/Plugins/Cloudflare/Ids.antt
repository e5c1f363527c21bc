-- ===== src/Plugins/Cloudflare/Ids.antt =====
-- The host names that plugins/cloudflare.c takes for identifiers of records.
use inadyn.Prelude.{
  ℕ, zero, suc, ◌+◌, ◌-◌, ◌*◌, ◌^◌, Bool, ◌&&◌, ◌||◌, Option, none, some, [], ◌∷◌, ◌==◌, leb, has,
  if◌then◌else◌, length,
}
use inadyn.Prelude.Text.{Str, is_digit}
use inadyn.Http.{skip_space}

abbrev pub hex_value : ℕ → Option ℕ
hex_value c =
    if is_digit c
    then some (c - b'0')
    else if leb b'a' c && leb c b'f'
    then some (c - b'a' + 10)
    else if leb b'A' c && leb c b'F'
    then some (c - b'A' + 10)
    else none

-- The hexadecimal digits that a text begins with, as a number.
unfoldable pub hex_number : ℕ → Str → ℕ
hex_number n [] = n
hex_number n (c ∷ s) = elim (hex_value c) [ none ↦ n | some d ↦ hex_number (n * 16 + d) s ]

-- "0x" before a hexadecimal digit.
unfoldable pub skip_0x : Str → Str
skip_0x (a ∷ x ∷ d ∷ s) =
    if a == b'0' && (x == b'x' || x == b'X') && has (hex_value d) then d ∷ s else a ∷ x ∷ d ∷ s
skip_0x s = s

-- ULLONG_MAX, and an unsigned number as strtoull gives it: a larger one becomes the largest.
abbrev pub ullong_max : ℕ
ullong_max = 2 ^ 64 - 1

abbrev pub saturate : ℕ → ℕ
saturate n = if leb n ullong_max then n else ullong_max

abbrev pub negated : ℕ → ℕ
negated zero = 0
negated (suc n) = if leb (suc n) ullong_max then ullong_max - n else ullong_max

abbrev pub signed_hex : Str → ℕ
signed_hex [] = 0
signed_hex (c ∷ s) =
    if c == b'-'
    then negated (hex_number 0 (skip_0x s))
    else if c == b'+'
    then saturate (hex_number 0 (skip_0x s))
    else saturate (hex_number 0 (skip_0x (c ∷ s)))

-- strtoull (s, NULL, 16)
unfoldable pub strtoull : Str → ℕ
strtoull s = signed_hex (skip_space s)

-- The test by which a host name counts as the identifier of a record.
unfoldable pub is_record_id : Str → Bool
is_record_id name = length name == 32 && strtoull name == ullong_max
