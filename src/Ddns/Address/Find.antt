-- ===== src/Ddns/Address/Find.antt =====
-- The loops that look for an address (src/ddns.c) against a description without a loop.
use inadyn.Prelude.{
  ℕ, zero, suc, ◌<◌, ◌≡◌, refl, ◌∙◌, Bool, Option, none, some, List, [], ◌∷◌, arith, length,
  Option-cases, inl, inr,
}
use inadyn.Prelude.Text.{Str}
use inadyn.Ddns.State.{Options}
use inadyn.Ddns.Address.{Inet, strpbrk, span, behind, tail, search_address, accept4, accept6}
use inadyn.Ddns.Address.{
  candidate4, candidate6, parse_my_address, parse_ipv4_address, parse_ipv6_address,
}
use inadyn.Ddns.Address.Runs.{
  runs, runs-strpbrk-none, runs-strpbrk, strpbrk-begins, runs-begins, length-tail-behind,
}

-- The first run that gives an address.
abbrev pub first_some : (Str → Option Str) → List Str → Option Str
first_some f [] = none
first_some f (r ∷ rs) = elim (f r) [ some a ↦ some a | none ↦ first_some f rs ]

module _ (accept : ℕ → Bool) (candidate : Str → Option Str)
    (short : (c : ℕ) → candidate (c ∷ []) ≡ none) where
  search-short : (s : Str) → length s < 2 → first_some candidate (runs accept s) ≡ none
  unfolding runs
  search-short [] h = refl
  search-short (c ∷ []) h = ground (arith, short c)
  search-short (c ∷ d ∷ s) h = absurd (omega arith)

  -- With fuel for every byte, the loop finds the first run that gives an address, or none.
  pub search_address-eq-first :
      (fuel : ℕ) (s : Str)
      → length s < fuel
      → search_address accept candidate fuel s ≡ first_some candidate (runs accept s)
  unfolding search_address
  search_address-eq-first zero s h = absurd (omega arith)
  search_address-eq-first (suc fuel) s h = elim (Option-cases (strpbrk accept s)) [
    | inl nowhere ↦ ground (arith, search-short s, runs-strpbrk-none accept s nowhere)
    | inr (needle, here) ↦
        let (b, l) = strpbrk-begins accept s needle here in
        let shorter = length-tail-behind accept needle b in
        let ih = search_address-eq-first fuel (tail (behind accept needle)) (omega arith) in
        let e : runs accept s ≡ span accept needle ∷ runs accept (tail (behind accept needle)) =
          runs-strpbrk accept s needle here ∙ runs-begins accept needle b in
        ground (arith, search-short s, e, here, ih)
  ]

-- inet_pton takes no text of one byte for an address.
pub record NeedsTwoBytes (lib : Inet) : Type 0 where
  pub no_pton4 : (c : ℕ) → lib.pton4 (c ∷ []) ≡ none
  pub no_pton6 : (c : ℕ) → lib.pton6 (c ∷ []) ≡ none

module _ (lib : Inet) (opts : Options) (needs : NeedsTwoBytes lib) where
  candidate4-short : (c : ℕ) → candidate4 lib opts (c ∷ []) ≡ none
  unfolding candidate4
  candidate4-short c = ground (arith, needs.no_pton4 c)

  candidate6-short : (c : ℕ) → candidate6 lib opts (c ∷ []) ≡ none
  unfolding candidate6
  candidate6-short c = ground (arith, needs.no_pton6 c)

  -- With an inet_pton that takes no text of one byte, the address taken from a text is the first maximal run of bytes of IPv6 addresses that is a valid
  -- one, printed by inet_ntop, else the first such run for IPv4, else none: the loops miss no run,
  -- and the fuel that they get is enough.
  pub parse_my_address-eq-first :
      (buffer : Str)
      → parse_my_address lib opts buffer
        ≡ elim (first_some (candidate6 lib opts) (runs accept6 buffer)) [
          | some address ↦ some address
          | none ↦ first_some (candidate4 lib opts) (runs accept4 buffer)
        ]
  unfolding parse_my_address parse_ipv4_address parse_ipv6_address
  parse_my_address-eq-first buffer =
      let six =
        search_address-eq-first accept6 (candidate6 lib opts) candidate6-short (suc (length buffer))
          buffer (omega arith) in
      let four =
        search_address-eq-first accept4 (candidate4 lib opts) candidate4-short (suc (length buffer))
          buffer (omega arith) in
      ground (arith, six, four)
