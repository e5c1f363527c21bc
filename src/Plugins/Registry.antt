-- ===== src/Plugins/Registry.antt =====
-- The list of plugins (src/plugin.c): registering, finding and removing them. `plugpath` is only set
-- by code that is compiled out, so a search is never repeated with it.
pub mod Laws
use inadyn.Prelude.{
  ℕ, zero, suc, Bool, true, false, ◌||◌, Option, none, some, List, [], ◌∷◌, ◌++◌, ◌==◌,
  if◌then◌else◌,
}
use inadyn.Prelude.Text.{Str, codes, contains, contains_case, strcasecmp_eq}
use inadyn.Ddns.State.{System, Plugin}

-- A `ddns_system_t` in the list. `id` stands for its place in memory.
pub record Entry : Type 0 where
  pub id : ℕ
  pub system : System
  pub plugin : Plugin

abbrev pub Registry : Type 0
Registry = List Entry

-- One of the two comparisons with a name: a part of it, or all of it.
abbrev pub same_name : Bool → Str → Str → Bool
same_name true text name = contains_case text name
same_name false text name = strcasecmp_eq text name

abbrev pub same_alias : Bool → Option Str → Str → Bool
same_alias loose none name = false
same_alias loose (some alias) name = same_name loose alias name

abbrev pub answers_to : Bool → Str → Entry → Bool
answers_to loose name e = same_name loose e.system.name name || same_alias loose e.system.alias name

unfoldable pub search_plugin : Str → Bool → Registry → Option Entry
search_plugin name loose [] = none
search_plugin name loose (e ∷ rest) =
    let behind = search_plugin name loose rest in if answers_to loose name e then some e else behind

-- What stands before a colon, which numbers the uses of a provider.
unfoldable pub before_colon : Str → Str
before_colon [] = []
before_colon (c ∷ s) = if c == b':' then [] else c ∷ before_colon s

unfoldable pub plugin_find : Str → Bool → Registry → Option Entry
plugin_find name loose plugins = search_plugin (before_colon name) loose plugins

-- A plugin that is found by its name is not entered again.
unfoldable pub plugin_register : Str → Entry → Registry → Registry
plugin_register req e plugins = elim (plugin_find e.system.name false plugins) [
  | some p ↦ plugins
  | none ↦ plugins ++ (record e { system = record e.system { server_req = req } } ∷ [])
]

unfoldable pub drop_prefix : ℕ → Str → Str
drop_prefix zero s = s
drop_prefix (suc n) [] = []
drop_prefix (suc n) (c ∷ s) = drop_prefix n s

-- sprintf (p->name, "ipv6%s", plugin->name + 7)
unfoldable pub name_v6 : Str → Str
name_v6 name = codes "ipv6" ++ drop_prefix 7 name

-- The clone for IPv6, at a new place in memory.
abbrev pub clone_v6 : ℕ → Entry → Entry
clone_v6 place e = record e {
  id = place;
  system = record e.system { name = name_v6 e.system.name; cloned = true };
}

unfoldable pub plugin_register_v6 : ℕ → Str → Entry → Registry → Registry
plugin_register_v6 place req e plugins = plugin_register req (clone_v6 place e) plugins

-- TAILQ_REMOVE
unfoldable pub remove : ℕ → Registry → Registry
remove place [] = []
remove place (e ∷ rest) = if e.id == place then rest else e ∷ remove place rest

unfoldable pub plugin_unregister : Entry → Registry → Registry
plugin_unregister e plugins = elim (plugin_find e.system.name false plugins) [
  | none ↦ plugins
  | some v4 ↦
      (let name =
          (if contains e.system.name (codes "default@")
            then name_v6 e.system.name
            else e.system.name) in
        let plugins' = remove e.id plugins in
        elim (plugin_find name false plugins') [
          | none ↦ plugins'
          | some v6 ↦ if v6.system.cloned then remove v6.id plugins' else plugins'
        ])
]
