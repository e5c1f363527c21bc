-- ===== src/Ddns/Schedule/Laws.antt =====
-- Laws of the schedule (src/ddns.c).
use inadyn.Prelude.{
  ℕ, ◌+◌, ◌<◌, ◌≡◌, ◌↔◌, ◌⊎◌, true, false, arith, length, take_all, Bool-cases, inl, inr,
}
use inadyn.Prelude.Text.{Str, strcmp_eq, strcmp_eq_refl, strcmp_eq→eq}
use inadyn.Ddns.State.{Alias, Ctx, max_address_len}
use inadyn.Ddns.Schedule.{compare_address, check_alias}

-- After a look at an address that fits its buffer, the alias holds it, and is marked as changed
-- exactly when it held another one before. Nothing else of it changes.
pub compare_address_lem :
    (address : Str) (alias : Alias)
    → length address < max_address_len
    → (((compare_address address alias).ip_has_changed ≡ false) ↔ (alias.address ≡ address))
      × (compare_address address alias ≡ record alias {
        ip_has_changed = (compare_address address alias).ip_has_changed;
        address = address;
      })
unfolding compare_address
compare_address_lem address alias fits = elim (Bool-cases (strcmp_eq alias.address address)) [
  | inl same ↦
      let e = strcmp_eq→eq alias.address address same in
      ((λ h. e, λ h. ground arith), ground (arith, e))
  | inr other ↦
      let kept = take_all 45 address (omega arith) in
      (
        (
          λ h. ground arith,
          λ (h : alias.address ≡ address). ground (arith, strcmp_eq_refl address, h, other),
        ),
        ground (arith, kept),
      )
]

-- An update is required exactly when the address changed, a forced update was asked for, or more
-- than the forced period has passed since the last update. Nothing else of the alias changes.
pub check_alias_lem :
    (now : ℕ) (ctx : Ctx) (alias : Alias)
    → (((check_alias now ctx alias).update_required ≡ true) ↔ (
        (alias.ip_has_changed ≡ true)
        ⊎ (alias.force_addr_update ≡ true)
        ⊎ (alias.last_update + ctx.forced_update_period_sec < now)))
      × (check_alias now ctx alias
          ≡ record alias { update_required = (check_alias now ctx alias).update_required })
unfolding check_alias
check_alias_lem now ctx alias = ((λ h. ground arith, λ h. ground arith), ground arith)
