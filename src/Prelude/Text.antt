-- ===== src/Prelude/Text.antt =====
-- C strings as lists of byte values, and the functions of <string.h> and <stdio.h> that the
-- program applies to them. The terminating NUL is not a member of the list.
use Prim.Native.Char.{code}
use Prim.Native.String.{String}
use Prim.Native.Nat.{ℕ, zero, suc, ◌+◌, ◌-◌, ◌/◌, ◌%◌, ◌≤◌}
use mathlib.Core.Path.{◌≡◌, refl}
use mathlib.Core.Bool.{Bool, true, false, ◌&&◌, ◌||◌}
use mathlib.Core.Option.{Option, none, some}
use mathlib.Core.List.{List, [], ◌∷◌, ◌++◌, map}
use native.Mathlib.Omega.{arith}
use inadyn.Prelude.Tests.{◌==◌, leb, ltb, if◌then◌else◌}
use inadyn.Prelude.Int.{ℤ, pos, negsuc}
use inadyn.Prelude.Lists.{length, take, take_all}

abbrev pub Str : Type 0
Str = List ℕ

-- The bytes of an ASCII literal. `String` has its own `[]` and `∷`.
abbrev pub codes : String → Str
codes String.[] = []
codes (String.◌∷◌ c s) = code c ∷ codes s

-- strcmp (a, b) == 0
abbrev pub strcmp_eq : Str → Str → Bool
strcmp_eq [] [] = true
strcmp_eq [] (d ∷ t) = false
strcmp_eq (c ∷ s) [] = false
strcmp_eq (c ∷ s) (d ∷ t) = (c == d) && strcmp_eq s t

-- strncmp (text, prefix, strlen (prefix)) == 0
abbrev pub starts_with : Str → Str → Bool
starts_with text [] = true
starts_with [] (d ∷ prefix) = false
starts_with (c ∷ text) (d ∷ prefix) = (c == d) && starts_with text prefix

-- strstr: the text from the first occurrence on.
unfoldable pub strstr : Str → Str → Option Str
strstr [] needle = if starts_with [] needle then some [] else none
strstr (c ∷ text) needle =
    let rest = strstr text needle in if starts_with (c ∷ text) needle then some (c ∷ text) else rest

-- strstr (text, needle) != NULL
unfoldable pub contains : Str → Str → Bool
contains [] needle = starts_with [] needle
contains (c ∷ text) needle = starts_with (c ∷ text) needle || contains text needle

-- tolower in the C locale
abbrev pub to_lower : ℕ → ℕ
to_lower c = if leb b'A' c && leb c b'Z' then c + 32 else c

-- strcasestr (text, needle) != NULL
unfoldable pub contains_case : Str → Str → Bool
contains_case [] needle = starts_with [] (map to_lower needle)
contains_case (c ∷ text) needle =
    starts_with (map to_lower (c ∷ text)) (map to_lower needle) || contains_case text needle

-- strcasecmp (a, b) == 0
abbrev pub strcasecmp_eq : Str → Str → Bool
strcasecmp_eq a b = strcmp_eq (map to_lower a) (map to_lower b)

-- What strlcpy (and an snprintf of one "%s") leaves in a buffer of `size` bytes, `size` > 0.
abbrev pub strlcpy : ℕ → Str → Str
strlcpy size s = take (size - 1) s

-- A byte of an unsigned decimal number.
abbrev pub is_digit : ℕ → Bool
is_digit c = leb b'0' c && leb c b'9'

-- "%s" takes the next argument, where one is left.
abbrev format_arg : (List Str → Str) → List Str → Str
format_arg rest [] = rest []
format_arg rest (a ∷ args) = a ++ rest args

-- printf with "%s" (and "%%") only, which is all that the request formats use.
unfoldable pub format : Str → List Str → Str
format [] args = []
format (c ∷ []) args = c ∷ []
format (c ∷ d ∷ fmt) args =
    if c == b'%'
    then (if d == b's' then format_arg (format fmt) args else d ∷ format fmt args)
    else c ∷ format (d ∷ fmt) args

-- The digits of a number in front of a text. Each division uses one unit of fuel, so `suc n` is enough.
digits : ℕ → ℕ → Str → Str
digits zero n text = text
digits (suc fuel) n text =
    let one = (b'0' + n % 10) ∷ text in
    let more = digits fuel (n / 10) one in if ltb n 10 then one else more

-- "%u", "%zu" and "%d" of a number that is not negative.
unfoldable pub print_nat : ℕ → Str
unfolding digits
print_nat n = digits (suc n) n []

-- "%li"
unfoldable pub print_int : ℤ → Str
unfolding print_nat
print_int (pos n) = print_nat n
print_int (negsuc n) = b'-' ∷ print_nat (suc n)

pub strcmp_eq_refl : (s : Str) → strcmp_eq s s ≡ true
strcmp_eq_refl [] = refl
strcmp_eq_refl (c ∷ s) = ground (arith, strcmp_eq_refl s)

pub strcmp_eq→eq : (s t : Str) → strcmp_eq s t ≡ true → s ≡ t
strcmp_eq→eq [] [] h = refl
strcmp_eq→eq [] (d ∷ t) h = ground arith
strcmp_eq→eq (c ∷ s) [] h = ground arith
strcmp_eq→eq (c ∷ s) (d ∷ t) h = ground (arith, strcmp_eq→eq s t)

pub strlcpy_fits : (size : ℕ) (s : Str) → length s ≤ size - 1 → strlcpy size s ≡ s
strlcpy_fits size s h = take_all (size - 1) s h

-- Every text holds the empty one.
pub contains-empty : (s : Str) → contains s [] ≡ true
unfolding contains
contains-empty [] = refl
contains-empty (c ∷ s) = refl
