-- ===== src/Cache.antt =====
-- The cache of addresses, a file for each alias (src/cache.c): its name, reading it at the start of
-- the daemon, and writing it after an update.
pub mod Laws
use inadyn.Prelude.{
  ℕ, zero, suc, ◌-◌, Bool, true, false, ◌||◌, Option, none, some, List, [], ◌∷◌, ◌++◌, map, ◌==◌,
  if◌then◌else◌, any, length, leb,
}
use inadyn.Prelude.Text.{Str, codes, starts_with, strlcpy, strcmp_eq}
use inadyn.World.{Env, World, File, wrote, read, looked_up, asked_time, emit, write_at}
use inadyn.Ddns.State.{Alias, Info, Provider, Options, max_address_len}

-- The buffer for a path.
abbrev pub path_size : ℕ
path_size = 256

-- snprintf (buf, len, "%s/%s-%s.cache", cache_dir, sysname, name), which cuts a long path short.
unfoldable pub cache_file : Str → Str → Str → Str
cache_file cache_dir name sysname =
    strlcpy path_size (cache_dir ++ codes "/" ++ sysname ++ codes "-" ++ name ++ codes ".cache")

-- A lookup that succeeds sets the address; `last_update` is cleared again then.
unfoldable pub nslookup : Env → Alias → World → Alias × World
nslookup env alias w = elim (env.nslookup w.history) [
  | none ↦ (alias, emit (looked_up alias.name) w)
  | some address ↦ (
    record alias { last_update = 0; address = strlcpy max_address_len address },
    emit (looked_up alias.name) w,
  )
]

-- fgets with `room` bytes beside the NUL: at most one line, its newline included.
unfoldable pub fgets : ℕ → Str → Str
fgets room [] = []
fgets zero (c ∷ s) = []
fgets (suc room) (c ∷ s) = if c == 10 then 10 ∷ [] else c ∷ fgets room s

-- `read_one`: a cached file gives the address and the time of the last update; with no file the name
-- is looked up, unless it has none to look up.
unfoldable pub read_one : Env → Str → Alias → Str → Bool → World → Alias × World
unfolding nslookup fgets cache_file
read_one env cache_dir alias₀ name nonslookup w =
    let alias = record alias₀ { last_update = 0; address = [] } in
    let path = cache_file cache_dir alias.name name in
    elim (w.files path) [
      | none ↦
          if nonslookup || strcmp_eq alias.name (codes "all.dnsomatic.com")
          then (alias, emit (read path) w)
          else nslookup env alias (emit (read path) w)
      | some file ↦ (
        record alias {
          address = strlcpy max_address_len (fgets (max_address_len - 1) file.content);
          last_update = file.mtime;
        },
        emit (read path) w,
      )
    ]

abbrev pub except : List Str
except = codes "ipv6tb@he.net" ∷ codes "default@tunnelbroker.net" ∷ []

-- `!strncmp (name, except[i], strlen (name))`: a name that begins an entry counts too.
unfoldable pub is_nonslookup : Str → Bool
is_nonslookup name = any (λ entry. starts_with entry name) except

read_aliases : Env → Str → Str → Bool → List Alias → World → List Alias × World
read_aliases env cache_dir name nonslookup [] w = ([], w)
read_aliases env cache_dir name nonslookup (alias ∷ rest) w =
    let (alias', w') = read_one env cache_dir alias name nonslookup w in
    let (rest', w'') = read_aliases env cache_dir name nonslookup rest w' in (alias' ∷ rest', w'')

unfoldable pub read_cache_file : Env → Str → List Provider → World → List Provider × World
unfolding read_aliases is_nonslookup
read_cache_file env cache_dir [] w = ([], w)
read_cache_file env cache_dir (p ∷ rest) w =
    let name = p.info.system.name in
    let (aliases', w') = read_aliases env cache_dir name (is_nonslookup name) p.aliases w in
    let (rest', w'') = read_cache_file env cache_dir rest w' in
    (record p { aliases = aliases' } ∷ rest', w'')

-- The file's modification time is the time of the write.
unfoldable pub write_cache_file : Env → Str → Alias → Str → World → ℕ × World
unfolding cache_file
write_cache_file env cache_dir alias name w =
    let path = cache_file cache_dir alias.name name in
    let w' = emit (wrote path alias.address) w in
    if env.can_write w.history
    then (0, write_at path alias.address (env.time w.history) w')
    else (1, w')
