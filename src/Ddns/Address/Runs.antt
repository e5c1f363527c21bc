-- ===== src/Ddns/Address/Runs.antt =====
-- The maximal runs of accepted bytes of a text, and how strpbrk and strspn walk them.
use inadyn.Prelude.{
  ℕ, ◌<◌, ◌≤◌, ◌≡◌, refl, ap, Bool, true, false, none, some, List, [], ◌∷◌, arith, if◌then◌else◌,
  length, Bool-cases, inl, inr,
}
use inadyn.Prelude.Text.{Str}
use inadyn.Ddns.Address.{strpbrk, span, behind, tail}

-- Whether a text begins with an accepted byte.
abbrev pub begins : (ℕ → Bool) → Str → Bool
begins accept [] = false
begins accept (c ∷ s) = accept c

-- Puts a byte in front of the first run.
abbrev extend : ℕ → List Str → List Str
extend c [] = (c ∷ []) ∷ []
extend c (r ∷ rs) = (c ∷ r) ∷ rs

-- All maximal runs, from left to right.
unfoldable pub runs : (ℕ → Bool) → Str → List Str
runs accept [] = []
runs accept (c ∷ s) =
    let rest = runs accept s in
    if accept c then (if begins accept s then extend c rest else (c ∷ []) ∷ rest) else rest

module _ (accept : ℕ → Bool) where
  pub runs-strpbrk-none : (s : Str) → strpbrk accept s ≡ none → runs accept s ≡ []
  unfolding strpbrk runs
  runs-strpbrk-none [] h = refl
  runs-strpbrk-none (c ∷ s) h = ground (arith, runs-strpbrk-none s)

  pub runs-strpbrk :
      (s needle : Str) → strpbrk accept s ≡ some needle → runs accept s ≡ runs accept needle
  unfolding strpbrk runs
  runs-strpbrk [] needle h = ground arith
  runs-strpbrk (c ∷ s) needle h = elim (Bool-cases (accept c)) [
    | inl here ↦ let e : c ∷ s ≡ needle = ground arith in ap (runs accept) e
    | inr later ↦ ground (arith, runs-strpbrk s needle)
  ]

  pub strpbrk-begins :
      (s needle : Str)
      → strpbrk accept s ≡ some needle
      → (begins accept needle ≡ true) × (length needle ≤ length s)
  unfolding strpbrk
  strpbrk-begins [] needle h = ground arith
  strpbrk-begins (c ∷ s) needle h = ground (arith, strpbrk-begins s needle)

  pub runs-begins :
      (s : Str)
      → begins accept s ≡ true
      → runs accept s ≡ span accept s ∷ runs accept (tail (behind accept s))
  unfolding runs span behind
  runs-begins [] h = ground arith
  runs-begins (c ∷ []) h = ground arith
  runs-begins (c ∷ d ∷ s) h = ground (arith, runs-begins (d ∷ s))

  length-behind-le : (s : Str) → length (tail (behind accept s)) ≤ length s
  unfolding behind
  length-behind-le [] = omega arith
  length-behind-le (c ∷ s) = ground (arith, length-behind-le s)

  pub length-tail-behind :
      (s : Str) → begins accept s ≡ true → length (tail (behind accept s)) < length s
  unfolding behind
  length-tail-behind [] h = ground arith
  length-tail-behind (c ∷ s) h = ground (arith, length-behind-le s)
