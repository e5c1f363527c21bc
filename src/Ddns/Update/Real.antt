-- ===== src/Ddns/Update/Real.antt =====
-- The pass with the real addresses (src/ddns.c, the second half of `update_alias_table`).
use inadyn.Prelude.{◌≡◌, refl, true, false, List, [], ◌∷◌, arith, All, ◌==◌, if◌then◌else◌}
use inadyn.Error.{rc_ok}
use inadyn.World.{Env}
use inadyn.Ddns.State.{Alias, Plugin, Options, compat}
use inadyn.Ddns.Send.Laws.{send_update_alias}
use inadyn.Ddns.Update.{Pass, update_one, update_aliases}
use inadyn.Ddns.Update.Fake.{addresses}

-- One round, with the parts of the pass that later rounds read.
update_one_lem :
    (env : Env) (opts : Options) (plugin : Plugin) (alias : Alias) (s : Pass)
    → opts.exec_mode ≡ compat
    → let r = update_one env opts plugin alias s in
      (r.1.address ≡ alias.address)
      × (r.0 ≡ (if r.2.rc == rc_ok then false else true))
      × ((if r.2.rc == rc_ok then r.1.update_required else false) ≡ false)
unfolding update_one
update_one_lem env opts plugin alias s h =
    ground (arith, send_update_alias env plugin s.ctx s.info alias s.changed s.world)

-- The real pass never changes an address.
pub addresses-update_aliases :
    (env : Env) (opts : Options) (plugin : Plugin) (aliases : List Alias) (s : Pass)
    → opts.exec_mode ≡ compat
    → addresses (update_aliases env opts plugin aliases s).0 ≡ addresses aliases
unfolding update_aliases
addresses-update_aliases env opts plugin [] s h = refl
addresses-update_aliases env opts plugin (alias ∷ rest) s h = ground (
  arith,
  update_one_lem env opts plugin alias s,
  addresses-update_aliases env opts plugin rest (update_one env opts plugin alias s).2,
)

abbrev pub IsDone : Alias → Type 0
IsDone alias = alias.update_required ≡ false

-- In compatibility mode a pass over a provider that ends without an error has left no alias that
-- still requires an update.
pub update_aliases-IsDone :
    (env : Env) (opts : Options) (plugin : Plugin) (aliases : List Alias) (s : Pass)
    → opts.exec_mode ≡ compat
    → (update_aliases env opts plugin aliases s).1.rc ≡ rc_ok
    → All IsDone (update_aliases env opts plugin aliases s).0
unfolding update_aliases
update_aliases-IsDone env opts plugin [] s h k = tt
update_aliases-IsDone env opts plugin (alias ∷ rest) s h k = ground (
  arith,
  update_one_lem env opts plugin alias s,
  update_aliases-IsDone env opts plugin rest (update_one env opts plugin alias s).2,
)
