-- ===== src/Ddns/Lost.antt =====
-- Updates across two checks (src/ddns.c): the address is stored in the alias before it is sent, so
-- the next check sees no change, and only `force_addr_update` or the forced period brings a failed
-- update back.
use mathlib.Core.List.{append-nil}
use inadyn.Prelude.{
  ℕ, ◌+◌, ◌≤◌, ◌≡◌, ◌≢◌, true, false, some, List, [], ◌∷◌, ◌==◌, arith, All, if◌then◌else◌, ◌++◌,
  ◌||◌, ltb,
}
use inadyn.Prelude.Text.{Str, strcmp_eq_refl}
use inadyn.Error.{rc_ok}
use inadyn.World.{Env, World, asked_time, emit}
use inadyn.Ddns.State.{Alias, Info, Ctx, Plugin, Provider, Options, Ready, compat}
use inadyn.Ddns.Send.{send_update}
use inadyn.Ddns.Schedule.{
  compare_address, compare_addresses, check_alias, check_aliases, check_alias_update_table,
  time_to_check,
}
use inadyn.Ddns.Update.{Pass, update_one, update_aliases}
use inadyn.Ddns.Address.{Inet}
use inadyn.Ddns.Backend.{get_address_backend, get_address}

-- What the next check makes of an alias: it finds `address`, at the time `now`.
abbrev pub next_check : Str → ℕ → Ctx → Alias → Alias
next_check address now ctx alias = check_alias now ctx (compare_address address alias)

-- An alias that holds the address, is not forced and not overdue.
abbrev pub IsSettled : Str → ℕ → Ctx → Alias → Type 0
IsSettled address now ctx alias =
    (alias.address ≡ address)
    × (alias.force_addr_update ≡ false)
    × (now ≤ alias.last_update + ctx.forced_update_period_sec)

settled-not_required :
    (address : Str) (now : ℕ) (ctx : Ctx) (alias : Alias)
    → IsSettled address now ctx alias
    → (next_check address now ctx alias).update_required ≡ false
unfolding compare_address check_alias
settled-not_required address now ctx alias h = ground (arith, strcmp_eq_refl address)

settled-not_required-All :
    (address : Str) (now : ℕ) (ctx : Ctx) (aliases : List Alias)
    → All (IsSettled address now ctx) aliases
    → All (λ a. (next_check address now ctx a).update_required ≡ false) aliases
settled-not_required-All address now ctx [] h = tt
settled-not_required-All address now ctx (a ∷ rest) h =
    (settled-not_required address now ctx a h.0, settled-not_required-All address now ctx rest h.1)

-- An update that fails in the provider's setup step fails, and returns the alias as it was but for the
-- name that the setup leaves: it is not marked to be tried again. So the next check of the same address
-- requires an update exactly when the alias was forced before or is overdue then.
pub failed_setup_is_lost :
    (env : Env) (plugin : Plugin) (setup : Env → Ctx → Info → Alias → World → Ready) (ctx : Ctx)
    (info : Info) (alias : Alias) (n : ℕ) (w : World) (now : ℕ)
    → plugin.setup ≡ some setup
    → (setup env ctx info alias w).rc ≢ rc_ok
    → let s = send_update env plugin ctx info alias n w in
      (s.rc ≢ rc_ok)
      × (s.alias ≡ record alias { name = (setup env ctx info alias w).name })
      × ((next_check alias.address now ctx s.alias).update_required
          ≡ (alias.force_addr_update || ltb (alias.last_update + ctx.forced_update_period_sec) now))
unfolding send_update compare_address check_alias time_to_check
failed_setup_is_lost env plugin setup ctx info alias n w now has fails =
    ground (arith, strcmp_eq_refl alias.address)

-- In compatibility mode an update that fails ends the pass over its provider: the aliases behind it
-- stay as they are, and those that hold the new address, unforced and not overdue, are not required
-- by the next check either.
pub failed_update_loses_rest :
    (env : Env) (opts : Options) (plugin : Plugin) (alias : Alias) (rest : List Alias) (s : Pass)
    (address : Str) (now : ℕ) (ctx : Ctx)
    → opts.exec_mode ≡ compat
    → alias.update_required ≡ true
    → (send_update env plugin s.ctx s.info alias s.changed s.world).rc ≢ rc_ok
    → All (IsSettled address now ctx) rest
    → ((update_aliases env opts plugin (alias ∷ rest) s).0
        ≡ (send_update env plugin s.ctx s.info alias s.changed s.world).alias ∷ rest)
      × All (λ a. (next_check address now ctx a).update_required ≡ false) rest
unfolding update_aliases update_one
failed_update_loses_rest env opts plugin alias rest s address now ctx mode required failed settled =
    (ground arith, settled-not_required-All address now ctx rest settled)

abbrev pub all_aliases : List Provider → List Alias
all_aliases [] = []
all_aliases (p ∷ rest) = p.aliases ++ all_aliases rest

check_aliases-changed :
    (env : Env) (ctx : Ctx) (aliases : List Alias) (w : World)
    → All (λ a. a.ip_has_changed ≡ true) aliases
    → All (λ a. a.update_required ≡ true) (check_aliases env ctx aliases w).0
unfolding check_aliases check_alias
check_aliases-changed env ctx [] w h = tt
check_aliases-changed env ctx (a ∷ rest) w h =
    (ground arith, check_aliases-changed env ctx rest (emit asked_time w) h.1)

-- When no address can be had for a provider, its aliases keep the mark of an earlier change, so a
-- check that learns nothing requires an update of each of them again.
pub failed_query_resends :
    (env : Env) (lib : Inet) (opts : Options) (ctx : Ctx) (p : Provider) (w : World)
    → (get_address_backend env lib opts
        (record { rc = 0; address = []; ctx = ctx; info = p.info; world = w })).rc
      ≢ rc_ok
    → All (λ a. a.ip_has_changed ≡ true) p.aliases
    → let (ctx', ps, w') = get_address env lib opts ctx (p ∷ []) w in
      All (λ a. a.update_required ≡ true) (all_aliases (check_alias_update_table env ctx' ps w').0)
unfolding get_address check_alias_update_table
failed_query_resends env lib opts ctx p w fails changed =
    let f =
      get_address_backend env lib opts
        (record { rc = 0; address = []; ctx = ctx; info = p.info; world = w }) in
    let kept : (if f.rc == rc_ok then compare_addresses f.address p.aliases else p.aliases)
        ≡ p.aliases =
      ground arith in
    rw kept (rw append-nil (check_aliases-changed env f.ctx p.aliases f.world changed))
