-- ===== src/Plugins/Dnspod/Split.antt =====
-- How plugins/dnspod.c takes a name apart into a domain and a prefix.
use inadyn.Prelude.{
  ℕ, suc, ◌+◌, ◌≤◌, ◌≡◌, ◌⊎◌, inl, inr, refl, some, [], ◌∷◌, ◌++◌, arith, Bool-cases, Option-cases,
  ==_iff, ◌==◌, if◌then◌else◌, leb,
}
use inadyn.Prelude.Text.{Str, codes, contains}
use inadyn.Plugins.Dnspod.{at_dot, split_name}

-- The number of dots in a text.
abbrev pub dots : Str → ℕ
dots [] = 0
dots (c ∷ s) = (if c == b'.' then 1 else 0) + dots s

contains-dots : (s : Str) → contains s (codes ".") ≡ leb 1 (dots s)
unfolding contains
contains-dots [] = refl
contains-dots (c ∷ s) = ground (arith, contains-dots s)

at_dot-join :
    (name before behind : Str)
    → at_dot name ≡ some (before, behind)
    → (name ≡ before ++ b'.' ∷ behind) × (dots before ≡ 0) × (dots name ≡ suc (dots behind))
unfolding at_dot
at_dot-join [] before behind h = ground arith
at_dot-join (c ∷ s) before behind h = elim (Bool-cases (c == b'.')) [
  | inl dot ↦ ground (arith, ==_iff c b'.')
  | inr other ↦ elim (Option-cases (at_dot s)) [
    | inl e ↦ ground (arith, e)
    | inr ((b, r), e) ↦ ground (arith, e, at_dot-join s b r)
  ]
]

-- A name that is taken apart has two dots or more, and is its prefix, which has none, a dot and the
-- domain, or it has a single dot, and is itself the domain, of the prefix "@".
pub split_name-join :
    (name domain prefix : Str)
    → split_name name ≡ some (domain, prefix)
    → ((2 ≤ dots name) × (name ≡ prefix ++ b'.' ∷ domain) × (dots prefix ≡ 0))
      ⊎ ((dots name ≡ 1) × (name ≡ domain) × (prefix ≡ codes "@"))
unfolding split_name
split_name-join name domain prefix h = elim (Option-cases (at_dot name)) [
  | inl e ↦ ground (arith, e)
  | inr ((b, r), e) ↦
      (let (joined, plain, count) = at_dot-join name b r e in
        let found = contains-dots r in
        elim (Bool-cases (contains r (codes "."))) [
          | inl dotted ↦ inl (ground arith, ground (arith, e), ground (arith, e))
          | inr label ↦ inr (ground arith, ground (arith, e), ground (arith, e))
        ])
]
