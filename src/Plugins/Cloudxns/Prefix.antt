-- ===== src/Plugins/Cloudxns/Prefix.antt =====
-- Under which host a name is looked up in the list of records (plugins/cloudxns.c).
use inadyn.Prelude.{
  ℕ, suc, ◌≡◌, refl, false, [], ◌∷◌, ◌++◌, arith, length, length-append, take, ap, ◌-◌, ◌==◌,
}
use inadyn.Prelude.Text.{Str, strcmp_eq}
use inadyn.Plugins.Cloudxns.Lists.{prefix_of, drop_last}

take-drop_last : (c : ℕ) (s t : Str) → take (length s) (c ∷ s ++ t) ≡ drop_last (c ∷ s)
unfolding drop_last
take-drop_last c [] t = refl
take-drop_last c (d ∷ s) t = ap (λ r. c ∷ r) (take-drop_last d s t)

drop_last-ne : (c : ℕ) (s : Str) → strcmp_eq (drop_last (c ∷ s)) (c ∷ s) ≡ false
unfolding drop_last
drop_last-ne c [] = refl
drop_last-ne c (d ∷ s) = ground (arith, drop_last-ne d s)

-- The size that strlcpy is given.
prefix_of_lem :
    (c : ℕ) (s domain : Str)
    → prefix_of (c ∷ s ++ b'.' ∷ domain) domain ≡ (drop_last (c ∷ s), false)
unfolding prefix_of
prefix_of_lem c s domain =
    let name = c ∷ s ++ b'.' ∷ domain in
    let longer : (length name == length domain) ≡ false =
      ground (arith, length-append s (b'.' ∷ domain)) in
    let size : length name - length domain - 1 ≡ suc (length s) =
      omega (arith, length-append s (b'.' ∷ domain)) in
    let room : suc (length s) - 1 ≡ length s = omega arith in
    rw longer (rw size (rw room (ap (λ r. (r, false)) (take-drop_last c s (b'.' ∷ domain)))))

-- A host that stands in front of its domain is looked up without its last byte, so that a record of
-- the host itself does not match.
pub prefix_of-drop_last :
    (c : ℕ) (s domain : Str)
    → let looked_up = prefix_of (c ∷ s ++ b'.' ∷ domain) domain in
      (looked_up ≡ (drop_last (c ∷ s), false)) × (strcmp_eq looked_up.0 (c ∷ s) ≡ false)
prefix_of-drop_last c s domain =
    (prefix_of_lem c s domain, rw (prefix_of_lem c s domain) (drop_last-ne c s))
