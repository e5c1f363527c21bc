-- ===== src/Ddns/Update/Fake.antt =====
-- The pass with fake addresses (src/ddns.c, the first half of `update_alias_table`).
use inadyn.Prelude.{
  ℕ, ◌≡◌, ◌≢◌, refl, ap, true, false, List, [], ◌∷◌, ◌++◌, ◌==◌, map, arith, Bool-cases, inl, inr,
}
use inadyn.Prelude.Text.{Str}
use inadyn.Error.{rc_ok}
use inadyn.World.{Env, drew, emit}
use inadyn.Ddns.State.{Alias, Plugin}
use inadyn.Ddns.Send.{Sent, send_update}
use inadyn.Ddns.Send.Laws.{send_update_alias}
use inadyn.Ddns.Update.{Pass, fake_address, fake_aliases}

abbrev pub addresses : List Alias → List Str
addresses = map (λ a. a.address)

-- The update of `alias` with a fake address, from the state `s`.
abbrev pub faked : Env → Plugin → Alias → Pass → Sent
faked env plugin alias s =
    send_update env plugin s.ctx s.info
      (record alias { address = fake_address (env.rand s.world.history) }) 0 (emit drew s.world)

-- The pass behind it.
abbrev after_fake : Env → Plugin → Alias → Pass → Pass
after_fake env plugin alias s =
    let sent = faked env plugin alias s in
    record s { rc = sent.rc; ctx = sent.ctx; info = sent.info; world = sent.world }

-- The fake addresses are gone after a pass over a provider that ends without an error code: every
-- alias has the address that it had before.
pub fake_aliases_restore :
    (env : Env) (plugin : Plugin) (aliases : List Alias) (s : Pass)
    → (fake_aliases env plugin aliases s).1.rc ≡ rc_ok
    → addresses (fake_aliases env plugin aliases s).0 ≡ addresses aliases
unfolding fake_aliases
fake_aliases_restore env plugin [] s h = refl
fake_aliases_restore env plugin (alias ∷ rest) s h = ground (
  arith,
  fake_aliases_restore env plugin rest s,
  fake_aliases_restore env plugin rest (record s {
    rc = (faked env plugin alias s).rc;
    ctx = (faked env plugin alias s).ctx;
    info = (faked env plugin alias s).info;
    world = (faked env plugin alias s).world;
  }),
)

-- What a failure leaves of a list: the aliases in front have their addresses, one that was forced has a
-- fake one, and those behind it are as they were.
pub record IsStuck (aliases left : List Alias) : Type 0 where
  pub before : List Alias
  pub kept : List Alias
  pub alias : Alias
  pub stuck : Alias
  pub rest : List Alias
  pub random : ℕ
  pub was : aliases ≡ before ++ alias ∷ rest
  pub is : left ≡ kept ++ stuck ∷ rest
  pub same_addresses : addresses kept ≡ addresses before
  pub forced : alias.force_addr_update ≡ true
  pub fake : stuck.address ≡ fake_address random

IsStuck-cons :
    (a a' : Alias) (aliases left : List Alias)
    → a'.address ≡ a.address
    → IsStuck aliases left
    → IsStuck (a ∷ aliases) (a' ∷ left)
IsStuck-cons a a' aliases left same s = record {
  before = a ∷ s.before;
  kept = a' ∷ s.kept;
  alias = s.alias;
  stuck = s.stuck;
  rest = s.rest;
  random = s.random;
  was = ap (λ l. a ∷ l) s.was;
  is = ap (λ l. a' ∷ l) s.is;
  same_addresses = ground (arith, same, s.same_addresses);
  forced = s.forced;
  fake = s.fake;
}

-- The three ends of a round of the loop.
module _ (env : Env) (plugin : Plugin) (alias : Alias) (rest : List Alias) (s : Pass) where
  fake_aliases-unforced :
      alias.force_addr_update ≡ false
      → fake_aliases env plugin (alias ∷ rest) s
        ≡ (alias ∷ (fake_aliases env plugin rest s).0, (fake_aliases env plugin rest s).1)
  unfolding fake_aliases
  fake_aliases-unforced h = ground arith

  fake_aliases-sent :
      alias.force_addr_update ≡ true
      → (faked env plugin alias s).rc ≡ rc_ok
      → fake_aliases env plugin (alias ∷ rest) s ≡ (
        record (faked env plugin alias s).alias { address = alias.address }
            ∷ (fake_aliases env plugin rest (after_fake env plugin alias s)).0,
        (fake_aliases env plugin rest (after_fake env plugin alias s)).1,
      )
  unfolding fake_aliases
  fake_aliases-sent h ok = ground arith

  fake_aliases-failed :
      alias.force_addr_update ≡ true
      → (faked env plugin alias s).rc ≢ rc_ok
      → fake_aliases env plugin (alias ∷ rest) s
        ≡ ((faked env plugin alias s).alias ∷ rest, after_fake env plugin alias s)
  unfolding fake_aliases
  fake_aliases-failed h failed = ground arith

-- A pass with fake addresses over a provider that is entered without an error and ends with one leaves
-- one forced alias at a fake address, since the program leaves the loop before it puts the address back. The aliases in front of it
-- have the addresses that they had before, and those behind it are as they were in every field.
pub fake_aliases_failure :
    (env : Env) (plugin : Plugin) (aliases : List Alias) (s : Pass)
    → s.rc ≡ rc_ok
    → (fake_aliases env plugin aliases s).1.rc ≢ rc_ok
    → IsStuck aliases (fake_aliases env plugin aliases s).0
fake_aliases_failure env plugin [] s clean failed = absurd (failed (unfold fake_aliases in clean))
fake_aliases_failure env plugin (alias ∷ rest) s clean failed =
    elim (Bool-cases alias.force_addr_update) [
      | inr quiet ↦
          (let e = fake_aliases-unforced env plugin alias rest s quiet in
            rw e (
              IsStuck-cons alias alias rest _ refl
                (fake_aliases_failure env plugin rest s clean (rw e at failed))))
      | inl forced ↦ elim (Bool-cases ((faked env plugin alias s).rc == rc_ok)) [
        | inl sent ↦
            (let ok : (faked env plugin alias s).rc ≡ rc_ok = ground arith in
              let e = fake_aliases-sent env plugin alias rest s forced ok in
              rw e (
                IsStuck-cons alias _ rest _ refl (
                  fake_aliases_failure env plugin rest (after_fake env plugin alias s) ok
                    (rw e at failed))))
        | inr refused ↦
            (let bad : (faked env plugin alias s).rc ≢ rc_ok = λ k. ground arith in
              rw (fake_aliases-failed env plugin alias rest s forced bad) (record {
                before = [];
                kept = [];
                alias = alias;
                stuck = (faked env plugin alias s).alias;
                rest = rest;
                random = env.rand s.world.history;
                was = refl;
                is = refl;
                same_addresses = refl;
                forced = forced;
                fake =
                    ap (λ a. a.address)
                      (send_update_alias env plugin s.ctx s.info
                        (record alias { address = fake_address (env.rand s.world.history) }) 0
                        (emit drew s.world)).2;
              }))
      ]
    ]
