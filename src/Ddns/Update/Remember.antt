-- ===== src/Ddns/Update/Remember.antt =====
-- Which error the pass over all providers reports (`remember` in `update_alias_table`, src/ddns.c).
use inadyn.Prelude.{
  ℕ, ◌≡◌, ◌∙◌, refl, ap, Bool, Option, none, some, List, [], ◌∷◌, arith, ◌==◌, ◌||◌, if◌then◌else◌,
}
use inadyn.Error.{
  rc_ddns_rsp_notok, rc_ddns_rsp_auth_fail, rc_ddns_rsp_retry_later, rc_ddns_rsp_too_frequent,
}
use inadyn.World.{Env}
use inadyn.Ddns.State.{Alias, Plugin, Provider, Options}
use inadyn.Ddns.Update.{Pass, Table, update_one, update_aliases, update_providers, remember_rc}

-- Errors of the provider that may end the daemon, and those that only delay the next check.
abbrev pub is_fatal : ℕ → Bool
is_fatal rc = rc == rc_ddns_rsp_notok || rc == rc_ddns_rsp_auth_fail

abbrev pub is_temporary : ℕ → Bool
is_temporary rc = rc == rc_ddns_rsp_retry_later || rc == rc_ddns_rsp_too_frequent

-- The last element that passes a test, and the first.
abbrev pub last_of : (ℕ → Bool) → List ℕ → Option ℕ
last_of p [] = none
last_of p (x ∷ xs) = elim (last_of p xs) [ some y ↦ some y | none ↦ if p x then some x else none ]

abbrev pub first_of_list : (ℕ → Bool) → List ℕ → Option ℕ
first_of_list p [] = none
first_of_list p (x ∷ xs) = if p x then some x else first_of_list p xs

-- The report: the last fatal error, else the first temporary one, else success.
abbrev pub verdict : List ℕ → ℕ
verdict rcs = elim (last_of is_fatal rcs) [
  | some rc ↦ rc
  | none ↦ elim (first_of_list is_temporary rcs) [ some rc ↦ rc | none ↦ 0 ]
]

-- The return codes of the aliases of a provider that the pass processes, in order.
unfoldable pub alias_rcs : Env → Options → Plugin → List Alias → Pass → List ℕ
alias_rcs env opts plugin [] s = []
alias_rcs env opts plugin (alias ∷ rest) s =
    let (halt, alias', s') = update_one env opts plugin alias s in
    let later = alias_rcs env opts plugin rest s' in s'.rc ∷ (if halt then [] else later)

abbrev pub last_or : ℕ → List ℕ → ℕ
last_or rc [] = rc
last_or rc (x ∷ xs) = last_or x xs

update_aliases-last_or :
    (env : Env) (opts : Options) (plugin : Plugin) (aliases : List Alias) (s : Pass)
    → (update_aliases env opts plugin aliases s).1.rc
      ≡ last_or s.rc (alias_rcs env opts plugin aliases s)
unfolding update_aliases alias_rcs
update_aliases-last_or env opts plugin [] s = refl
update_aliases-last_or env opts plugin (alias ∷ rest) s =
    ground
      (arith, update_aliases-last_or env opts plugin rest (update_one env opts plugin alias s).2)

-- For each provider the code of the last alias that the pass processed there, or the one before where
-- the provider has no alias.
pub provider_rcs : Env → Options → List Provider → Table → List ℕ
provider_rcs env opts [] t = []
provider_rcs env opts (p ∷ rest) t =
    let start : Pass = record {
      rc = t.rc;
      ctx = t.ctx;
      info = p.info;
      changed = t.changed;
      world = t.world;
    } in
    let s = (update_aliases env opts p.plugin p.aliases start).1 in
    last_or t.rc (alias_rcs env opts p.plugin p.aliases start)
    ∷ provider_rcs env opts rest (record {
      rc = s.rc;
      remember = remember_rc s.rc t.remember;
      changed = s.changed;
      ctx = s.ctx;
      world = s.world;
    })

-- From a code that is already remembered.
verdict_from : ℕ → List ℕ → ℕ
verdict_from r rcs = elim (last_of is_fatal rcs) [
  | some rc ↦ rc
  | none ↦ if r == 0 then elim (first_of_list is_temporary rcs) [ some rc ↦ rc | none ↦ 0 ] else r
]

verdict_from-step :
    (r rc : ℕ) (rcs : List ℕ) → verdict_from (remember_rc rc r) rcs ≡ verdict_from r (rc ∷ rcs)
unfolding verdict_from remember_rc
verdict_from-step r rc rcs = ground arith

remember-eq-verdict_from :
    (env : Env) (opts : Options) (ps : List Provider) (t : Table)
    → (update_providers env opts ps t).1.remember
      ≡ verdict_from t.remember (provider_rcs env opts ps t)
unfolding update_providers provider_rcs
remember-eq-verdict_from env opts [] t = unfold verdict_from in ground arith
remember-eq-verdict_from env opts (p ∷ rest) t =
    let start : Pass = record {
      rc = t.rc;
      ctx = t.ctx;
      info = p.info;
      changed = t.changed;
      world = t.world;
    } in
    let s = (update_aliases env opts p.plugin p.aliases start).1 in
    let t' : Table = record {
      rc = s.rc;
      remember = remember_rc s.rc t.remember;
      changed = s.changed;
      ctx = s.ctx;
      world = s.world;
    } in
    remember-eq-verdict_from env opts rest t'
    ∙ verdict_from-step t.remember s.rc (provider_rcs env opts rest t')
    ∙ ap (λ rc. verdict_from t.remember (rc ∷ provider_rcs env opts rest t'))
        (update_aliases-last_or env opts p.plugin p.aliases start)

-- With nothing remembered before, the pass over all providers takes for each provider the code of the
-- last alias that it processed there, and reports the last fatal one of these, else the first temporary
-- one, else success: errors of any other kind are not reported.
pub remember-eq-verdict :
    (env : Env) (opts : Options) (ps : List Provider) (t : Table)
    → t.remember ≡ 0
    → (update_providers env opts ps t).1.remember ≡ verdict (provider_rcs env opts ps t)
remember-eq-verdict env opts ps t h =
    remember-eq-verdict_from env opts ps t ∙ (unfold verdict_from in ground arith)
