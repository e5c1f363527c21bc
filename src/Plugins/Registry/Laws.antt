-- ===== src/Plugins/Registry/Laws.antt =====
-- Laws of the list of plugins (src/plugin.c).
use mathlib.Core.List.{append_assoc, append-nil}
use inadyn.Prelude.{
  ℕ, ◌≡◌, ◌≢◌, refl, ap, sym, ◌∙◌, Bool, true, false, none, some, [], ◌∷◌, ◌++◌, map, arith, All,
  inl, inr, Option-cases,
}
use inadyn.Prelude.Text.{Str, codes, contains, strcmp_eq_refl, to_lower}
use inadyn.Plugins.Registry.{
  Entry, Registry, answers_to, search_plugin, before_colon, plugin_find, plugin_register,
  plugin_register_v6, plugin_unregister, name_v6, clone_v6, remove,
}

search_plugin-append_some :
    (name : Str) (loose : Bool) (reg more : Registry) (e : Entry)
    → search_plugin name loose reg ≡ some e
    → search_plugin name loose (reg ++ more) ≡ some e
unfolding search_plugin
search_plugin-append_some name loose [] more e h = ground arith
search_plugin-append_some name loose (x ∷ reg) more e h =
    ground (arith, search_plugin-append_some name loose reg more e)

search_plugin-append_none :
    (name : Str) (loose : Bool) (reg more : Registry)
    → search_plugin name loose reg ≡ none
    → search_plugin name loose (reg ++ more) ≡ search_plugin name loose more
unfolding search_plugin
search_plugin-append_none name loose [] more h = refl
search_plugin-append_none name loose (x ∷ reg) more h =
    ground (arith, search_plugin-append_none name loose reg more)

-- The first plugin wins: registering another one, or a clone of one, never changes what a name that
-- was found before leads to, by a whole name or by a part.
pub plugin_register-keeps :
    (req name : Str) (loose : Bool) (e p : Entry) (reg : Registry)
    → plugin_find name loose reg ≡ some p
    → plugin_find name loose (plugin_register req e reg) ≡ some p
unfolding plugin_register plugin_find
plugin_register-keeps req name loose e p reg h = ground (
  arith,
  search_plugin-append_some (before_colon name) loose reg
      (record e { system = record e.system { server_req = req } } ∷ []) p h,
)

-- A registered plugin as it stands in the list.
abbrev entered : Str → Entry → Entry
entered req e = record e { system = record e.system { server_req = req } }

answers_to-own_name : (e : Entry) → answers_to false e.system.name e ≡ true
answers_to-own_name e = ground (arith, strcmp_eq_refl (map to_lower e.system.name))

search_plugin-answers :
    (name : Str) (loose : Bool) (reg : Registry) (e : Entry)
    → search_plugin name loose reg ≡ some e
    → answers_to loose name e ≡ true
unfolding search_plugin
search_plugin-answers name loose [] e h = ground arith
search_plugin-answers name loose (x ∷ reg) e h =
    ground (arith, search_plugin-answers name loose reg e)

search_plugin-head :
    (name : Str) (loose : Bool) (e : Entry) (rest : Registry)
    → answers_to loose name e ≡ true
    → search_plugin name loose (e ∷ rest) ≡ some e
unfolding search_plugin
search_plugin-head name loose e rest h = ground arith

search_plugin-skip :
    (name : Str) (loose : Bool) (e : Entry) (rest : Registry)
    → answers_to loose name e ≡ false
    → search_plugin name loose (e ∷ rest) ≡ search_plugin name loose rest
unfolding search_plugin
search_plugin-skip name loose e rest h = ground arith

plugin_register-new :
    (req : Str) (e : Entry) (reg : Registry)
    → plugin_find e.system.name false reg ≡ none
    → plugin_register req e reg ≡ reg ++ (entered req e ∷ [])
unfolding plugin_register
plugin_register-new req e reg h = ground arith

plugin_find-plain :
    (name : Str) (loose : Bool) (reg : Registry)
    → before_colon name ≡ name
    → plugin_find name loose reg ≡ search_plugin name loose reg
unfolding plugin_find
plugin_find-plain name loose reg plain = ap (λ n. search_plugin n loose reg) plain

-- The new plugin is found behind a list that has none of its name.
plugin_find-last :
    (name : Str) (reg more : Registry) (e : Entry)
    → before_colon name ≡ name
    → plugin_find name false reg ≡ none
    → answers_to false name e ≡ true
    → plugin_find name false (reg ++ (e ∷ more)) ≡ some e
plugin_find-last name reg more e plain missing own =
    plugin_find-plain name false (reg ++ (e ∷ more)) plain
    ∙ search_plugin-append_none name false reg (e ∷ more)
        (sym (plugin_find-plain name false reg plain) ∙ missing)
    ∙ search_plugin-head name false e more own

-- After a plugin with no colon in its name was registered, its name leads to a plugin that has it as
-- its name or its alias, whether it was there before or is the new one.
pub plugin_find-plugin_register :
    (req : Str) (e : Entry) (reg : Registry)
    → before_colon e.system.name ≡ e.system.name
    → (p : Entry) × (plugin_find e.system.name false (plugin_register req e reg) ≡ some p)
      × (answers_to false e.system.name p ≡ true)
plugin_find-plugin_register req e reg plain =
    elim (Option-cases (plugin_find e.system.name false reg)) [
      | inr (p, found) ↦ (
        p,
        plugin_register-keeps req e.system.name false e p reg found,
        search_plugin-answers e.system.name false reg p
            (sym (plugin_find-plain e.system.name false reg plain) ∙ found),
      )
      | inl missing ↦ (
        entered req e,
        ap (plugin_find e.system.name false) (plugin_register-new req e reg missing)
            ∙ plugin_find-last e.system.name reg [] (entered req e) plain missing
                (answers_to-own_name (entered req e)),
        answers_to-own_name (entered req e),
      )
    ]

remove-append :
    (place : ℕ) (reg more : Registry) (e : Entry)
    → All (λ x. x.id ≢ place) reg
    → e.id ≡ place
    → remove place (reg ++ (e ∷ more)) ≡ reg ++ more
unfolding remove
remove-append place [] more e h k = ground arith
remove-append place (x ∷ reg) more e h k = ground (arith, remove-append place reg more e h.1)

plugin_find-skip :
    (name : Str) (reg more : Registry) (e : Entry)
    → before_colon name ≡ name
    → plugin_find name false reg ≡ none
    → answers_to false name e ≡ false
    → plugin_find name false (reg ++ (e ∷ more)) ≡ search_plugin name false more
plugin_find-skip name reg more e plain missing other =
    plugin_find-plain name false (reg ++ (e ∷ more)) plain
    ∙ search_plugin-append_none name false reg (e ∷ more)
        (sym (plugin_find-plain name false reg plain) ∙ missing)
    ∙ search_plugin-skip name false e more other

-- A plugin that can be entered with its clone: the name is the default one of a provider, neither
-- name leads anywhere yet, the plugin does not answer to its clone's name, and both places are new.
pub record IsNew (place : ℕ) (e : Entry) (reg : Registry) : Type 0 where
  pub default_name : contains e.system.name (codes "default@") ≡ true
  pub plain : before_colon e.system.name ≡ e.system.name
  pub plain_v6 : before_colon (name_v6 e.system.name) ≡ name_v6 e.system.name
  pub missing : plugin_find e.system.name false reg ≡ none
  pub missing_v6 : plugin_find (name_v6 e.system.name) false reg ≡ none
  pub other : answers_to false (name_v6 e.system.name) e ≡ false
  pub new_place : All (λ x. x.id ≢ e.id) reg
  pub new_place_v6 : All (λ x. x.id ≢ place) reg

module _ (place : ℕ) (req : Str) (e : Entry) (reg : Registry) (new : IsNew place e reg) where
  plugin_register_v6-plugin_register :
      plugin_register_v6 place req e (plugin_register req e reg)
      ≡ reg ++ (entered req e ∷ entered req (clone_v6 place e) ∷ [])
  unfolding plugin_register_v6 search_plugin
  plugin_register_v6-plugin_register =
      ap (plugin_register req (clone_v6 place e)) (plugin_register-new req e reg new.missing)
      ∙ plugin_register-new req (clone_v6 place e) (reg ++ (entered req e ∷ [])) (
          plugin_find-skip (name_v6 e.system.name) reg [] (entered req e) new.plain_v6
            new.missing_v6 new.other)
      ∙ append_assoc reg (entered req e ∷ []) (entered req (clone_v6 place e) ∷ [])

  -- Removing a plugin undoes its registration together with that of its clone for IPv6: the list is
  -- again what it was.
  pub plugin_unregister-plugin_register :
      plugin_unregister e (plugin_register_v6 place req e (plugin_register req e reg)) ≡ reg
  unfolding plugin_unregister
  plugin_unregister-plugin_register =
      let v4 = entered req e in
      let v6 = entered req (clone_v6 place e) in
      let found =
        plugin_find-last e.system.name reg (v6 ∷ []) v4 new.plain new.missing
          (answers_to-own_name v4) in
      let found_v6 =
        plugin_find-last (name_v6 e.system.name) reg [] v6 new.plain_v6 new.missing_v6
          (answers_to-own_name v6) in
      rw plugin_register_v6-plugin_register (
        ground (
          arith,
          found,
          found_v6,
          new.default_name,
          remove-append e.id reg (v6 ∷ []) v4 new.new_place refl,
          remove-append place reg [] v6 new.new_place_v6 refl,
          append-nil reg,
        ))
