-- ===== src/Plugins/Builtin/Names.antt =====
-- Every name that a plugin of the build registers can be configured (plugins/*.c, src/plugin.c,
-- src/conf.c).
use inadyn.Prelude.{
  ℕ, ◌≡◌, true, false, some, List, [], ◌∷◌, ◌++◌, ◌==◌, any, all, has, arith, All, ◌∙◌, refl,
}
use inadyn.Prelude.Text.{Str}
use inadyn.Plugins.Registry.{
  Entry, Registry, plugin_find, plugin_register, plugin_register_v6, before_colon,
}
use inadyn.Plugins.Registry.Laws.{plugin_register-keeps, plugin_find-plugin_register}
use inadyn.Plugins.Table.{Registration, register, register_v6, register_all}
use inadyn.Plugins.Builtin.{Libraries, Builtin, generic, load, load_all, calls}
use inadyn.Plugins.Builtin.Servers.{registered, sound, load-calls, set_provider_opts-load_all}
use inadyn.Conf.Parsed.{Section}
use inadyn.Conf.Server.{Strtonum}
use inadyn.Conf.Provider.{Defaults, find_system, set_provider_opts}

before_colon-plain : (s : Str) → any (λ c. c == b':') s ≡ false → before_colon s ≡ s
unfolding before_colon
before_colon-plain [] h = refl
before_colon-plain (c ∷ s) h = ground (arith, before_colon-plain s)

-- Some plugin is found by the name.
abbrev IsFound : Registry → Str → Type 0
IsFound plugins name = (p : Entry) × (plugin_find name false plugins ≡ some p)

-- A call registers what it enters.
abbrev request_of : Registration → Str
request_of (register req e) = req
request_of (register_v6 place req e) = req

register_all-cons :
    (r : Registration) (rest : List Registration) (plugins : Registry)
    → register_all (r ∷ rest) plugins
      ≡ register_all rest (plugin_register (request_of r) (registered r) plugins)
unfolding register_all plugin_register_v6
register_all-cons (register req e) rest plugins = refl
register_all-cons (register_v6 place req e) rest plugins = refl

register_all-keeps :
    (list : List Registration) (name : Str) (plugins : Registry)
    → IsFound plugins name
    → IsFound (register_all list plugins) name
unfolding register_all
register_all-keeps [] name plugins found = found
register_all-keeps (r ∷ rest) name plugins (p, found) = rw (register_all-cons r rest plugins) (
    register_all-keeps rest name (plugin_register (request_of r) (registered r) plugins)
      (p, plugin_register-keeps (request_of r) name false (registered r) p plugins found))

-- What holds of a call whose name is found behind all of them holds of each of them.
register_all-IsFound :
    {Q : Registration → Type 0} (list : List Registration) (plugins : Registry)
    → ((r : Registration) → IsFound (register_all list plugins) (registered r).system.name → Q r)
    → all (λ r. sound (registered r).system) list ≡ true
    → All Q list
unfolding sound
register_all-IsFound [] plugins use_name h = tt
register_all-IsFound (r ∷ rest) plugins use_name h =
    let name = (registered r).system.name in
    let more = plugin_register (request_of r) (registered r) plugins in
    let (p, found, own) =
      plugin_find-plugin_register (request_of r) (registered r) plugins
        (before_colon-plain name (ground arith)) in
    (
      use_name r
          (rw (register_all-cons r rest plugins) (register_all-keeps rest name more (p, found))),
      register_all-IsFound rest more
          (λ r' found'. use_name r' (rw (register_all-cons r rest plugins) found')) (ground arith),
    )

load_all-keeps :
    (libs : Libraries) (order : List (Builtin × ℕ)) (name : Str) (plugins : Registry)
    → IsFound plugins name
    → IsFound (load_all libs order plugins) name
unfolding load_all
load_all-keeps libs [] name plugins found = found
load_all-keeps libs ((b, place) ∷ rest) name plugins found =
    load_all-keeps libs rest name (load libs b place plugins) (
      rw (load-calls libs b place plugins).0
        (register_all-keeps (calls libs b place) name plugins found))

load_all-append :
    (libs : Libraries) (earlier later : List (Builtin × ℕ)) (plugins : Registry)
    → load_all libs (earlier ++ later) plugins ≡ load_all libs later (load_all libs earlier plugins)
unfolding load_all
load_all-append libs [] later plugins = refl
load_all-append libs ((b, place) ∷ rest) later plugins =
    load_all-append libs rest later (load libs b place plugins)

-- A name that is found behind the calls of a plugin is found whatever is loaded later.
load_all-IsFound :
    (libs : Libraries) (earlier later : List (Builtin × ℕ)) (b : Builtin) (place : ℕ) (name : Str)
    → IsFound (register_all (calls libs b place) (load_all libs earlier [])) name
    → IsFound (load_all libs (earlier ++ (b, place) ∷ later) []) name
unfolding load_all
load_all-IsFound libs earlier later b place name found =
    let before = load_all libs earlier [] in
    rw (load_all-append libs earlier ((b, place) ∷ later) []) (
      load_all-keeps libs later name (load libs b place before)
        (rw (load-calls libs b place before).0 found))

find_system-IsFound :
    (name : Str) (plugins : Registry) → IsFound plugins name → has (find_system name plugins) ≡ true
unfolding find_system
find_system-IsFound name plugins (p, found) = ground arith

-- Whatever other plugins are loaded before and after it, each name that a plugin of the build registers,
-- those for IPv6 among them, is one with which a section of the configuration can be set up.
pub set_provider_opts-calls :
    (strtonum : Strtonum) (libs : Libraries) (earlier later : List (Builtin × ℕ)) (b : Builtin)
    (place : ℕ) (defaults : Defaults) (cfg : Section)
    → let plugins = load_all libs (earlier ++ (b, place) ∷ later) [] in
      All
        (λ r.
          has (
            set_provider_opts strtonum plugins defaults
              (record cfg { title = (registered r).system.name })
              false)
          ≡ true)
        (calls libs b place)
set_provider_opts-calls strtonum libs earlier later b place defaults cfg =
    let order = earlier ++ (b, place) ∷ later in
    let before = load_all libs earlier [] in
    register_all-IsFound (calls libs b place) before
      (λ r found.
        let name = (registered r).system.name in
        set_provider_opts-load_all strtonum libs order defaults (record cfg { title = name }) false
        ∙ find_system-IsFound name (load_all libs order [])
            (load_all-IsFound libs earlier later b place name found))
      (load-calls libs b place before).1

-- With the custom provider loaded, every custom section can be set up.
pub set_provider_opts-custom :
    (strtonum : Strtonum) (libs : Libraries) (earlier later : List (Builtin × ℕ)) (place : ℕ)
    (defaults : Defaults) (cfg : Section)
    → has (
        set_provider_opts strtonum
          (load_all libs (earlier ++ (generic, place) ∷ later) [])
          defaults
          cfg
          true)
      ≡ true
set_provider_opts-custom strtonum libs earlier later place defaults cfg =
    let order = earlier ++ (generic, place) ∷ later in
    let before = load_all libs earlier [] in
    set_provider_opts-load_all strtonum libs order defaults cfg true
    ∙ find_system-IsFound _ (load_all libs order []) (
        load_all-IsFound libs earlier later generic place _
          (register_all-IsFound
            {Q = λ r.
              IsFound (register_all (calls libs generic place) before) (registered r).system.name}
            (calls libs generic place) before (λ r found. found)
            (load-calls libs generic place before).1).0)
