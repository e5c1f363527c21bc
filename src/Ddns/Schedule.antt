-- ===== src/Ddns/Schedule.antt =====
-- When an alias is due (src/ddns.c): the part of `get_address` that compares an address with the
-- aliases, `time_to_check` and `check_alias_update_table`.
pub mod Laws
use inadyn.Prelude.{
  ℕ, suc, ◌+◌, ◌≡◌, refl, Bool, true, false, not, ◌&&◌, ◌||◌, List, [], ◌∷◌, ltb, if◌then◌else◌,
}
use inadyn.Prelude.Text.{Str, strcmp_eq, strlcpy}
use inadyn.World.{Env, World, asked_time, emit}
use inadyn.Ddns.State.{Alias, Ctx, Provider, max_address_len}

-- The body of the loop of `get_address`: strncmp over the whole buffer compares whole strings.
unfoldable pub compare_address : Str → Alias → Alias
compare_address address alias =
    if strcmp_eq alias.address address
    then record alias { ip_has_changed = false }
    else record alias { ip_has_changed = true; address = strlcpy max_address_len address }

unfoldable pub compare_addresses : Str → List Alias → List Alias
compare_addresses address [] = []
compare_addresses address (alias ∷ rest) =
    compare_address address alias ∷ compare_addresses address rest

-- The time that has passed is signed: a clock before `last_update` is not past the period.
unfoldable pub time_to_check : ℕ → Ctx → Alias → Bool
time_to_check now ctx alias =
    alias.force_addr_update || ltb (alias.last_update + ctx.forced_update_period_sec) now

unfoldable pub check_alias : ℕ → Ctx → Alias → Alias
unfolding time_to_check
check_alias now ctx alias =
    if not alias.ip_has_changed && not (time_to_check now ctx alias)
    then record alias { update_required = false }
    else record alias { update_required = true }

-- The clock is read for each alias.
unfoldable pub check_aliases : Env → Ctx → List Alias → World → List Alias × World
check_aliases env ctx [] w = ([], w)
check_aliases env ctx (alias ∷ rest) w =
    let (rest', w') = check_aliases env ctx rest (emit asked_time w) in
    (check_alias (env.time w.history) ctx alias ∷ rest', w')

unfoldable pub check_alias_update_table : Env → Ctx → List Provider → World → List Provider × World
check_alias_update_table env ctx [] w = ([], w)
check_alias_update_table env ctx (p ∷ rest) w =
    let (aliases', w') = check_aliases env ctx p.aliases w in
    let (rest', w'') = check_alias_update_table env ctx rest w' in
    (record p { aliases = aliases' } ∷ rest', w'')
