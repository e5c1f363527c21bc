-- ===== src/Plugins/Scan.antt =====
-- What the plugins' formats for sscanf read: a literal, a number, and a run of bytes.
use inadyn.Prelude.{
  ℕ, zero, suc, ◌+◌, ◌-◌, ◌*◌, ◌%◌, ◌^◌, Bool, true, false, Option, none, some, [], ◌∷◌, ◌==◌, any,
  if◌then◌else◌,
}
use inadyn.Prelude.Text.{Str, is_digit}
use inadyn.Prelude.Int.{ℤ, pos, negsuc}
use inadyn.Http.{skip_space, negate}

-- A literal without white space.
unfoldable pub skip_text : Str → Str → Option Str
skip_text [] s = some s
skip_text (d ∷ text) [] = none
skip_text (d ∷ text) (c ∷ s) = if c == d then skip_text text s else none

-- The digits that a text begins with: the value so far, whether there was one, and the rest.
unfoldable pub scan_nat : ℕ → Bool → Str → Option (ℕ × Str)
scan_nat n seen [] = if seen then some (n, []) else none
scan_nat n seen (c ∷ s) =
    let more = scan_nat (n * 10 + (c - b'0')) true s in
    if is_digit c then more else (if seen then some (n, c ∷ s) else none)

-- "%d" and "%u" for numbers within their range: white space, a sign, digits.
unfoldable pub scan_signed : Str → Option (ℤ × Str)
unfolding scan_nat
scan_signed [] = none
scan_signed (c ∷ s) =
    if c == b'-'
    then elim (scan_nat 0 false s) [ none ↦ none | some (n, r) ↦ some (negate n, r) ]
    else if c == b'+'
    then elim (scan_nat 0 false s) [ none ↦ none | some (n, r) ↦ some (pos n, r) ]
    else elim (scan_nat 0 false (c ∷ s)) [ none ↦ none | some (n, r) ↦ some (pos n, r) ]

unfoldable pub scan_int : Str → Option (ℤ × Str)
unfolding scan_signed skip_space
scan_int s = scan_signed (skip_space s)

-- A number that "%u" reads, in 32 bits.
abbrev pub unsigned : ℤ → ℕ
unsigned (pos n) = n % 2 ^ 32
unsigned (negsuc n) = 2 ^ 32 - 1 - n % 2 ^ 32

-- "%<width>[^...]": at least one byte and at most `width` of them, none in the set; and the rest.
unfoldable pub span_width : ℕ → Str → Str → Str × Str
span_width zero stops s = ([], s)
span_width (suc width) stops [] = ([], [])
span_width (suc width) stops (c ∷ s) =
    let more = span_width width stops s in
    if any (λ d. c == d) stops then ([], c ∷ s) else (c ∷ more.0, more.1)

abbrev pub nonempty : Str × Str → Option (Str × Str)
nonempty ([], rest) = none
nonempty (c ∷ s, rest) = some (c ∷ s, rest)

unfoldable pub scan_set : ℕ → Str → Str → Option (Str × Str)
unfolding span_width
scan_set width stops s = nonempty (span_width width stops s)
