-- ===== src/Cache/Laws.antt =====
-- What the cache keeps (src/cache.c).
use inadyn.Prelude.{
  ℕ, zero, suc, ◌≤◌, ◌<◌, ◌≡◌, refl, Bool, true, [], ◌∷◌, arith, All, length, take_all, ◌≢◌,
}
use inadyn.Prelude.Text.{Str, strcmp_eq_refl}
use inadyn.World.{Env, World}
use inadyn.Ddns.State.{Alias, max_address_len}
use inadyn.Cache.{cache_file, fgets, read_one, write_cache_file}

-- An address as inet_ntop and the like print it: it fits its buffer and is one line.
pub record IsAddress (s : Str) : Type 0 where
  pub fits : length s < max_address_len
  pub one_line : All (λ c. c ≢ 10) s

fgets-line : (room : ℕ) (s : Str) → length s ≤ room → All (λ c. c ≢ 10) s → fgets room s ≡ s
unfolding fgets
fgets-line room [] h a = refl
fgets-line zero (c ∷ s) h a = absurd (omega arith)
fgets-line (suc room) (c ∷ s) h a = ground (arith, fgets-line room s, a.0)

-- What is written is read back: after a write that succeeds of an address that is one line and fits
-- its buffer, a start of the daemon finds that address and the time of the write for an alias of the
-- same name, and changes nothing else of it, whatever it held before.
pub read_one-write_cache_file :
    (env : Env) (cache_dir : Str) (alias stale : Alias) (name : Str) (nonslookup : Bool) (w : World)
    → env.can_write w.history ≡ true
    → stale.name ≡ alias.name
    → IsAddress alias.address
    → (read_one env cache_dir stale name nonslookup
        (write_cache_file env cache_dir alias name w).1).0
      ≡ record stale { address = alias.address; last_update = env.time w.history }
unfolding read_one write_cache_file
read_one-write_cache_file env cache_dir alias stale name nonslookup w opens same a = ground (
  arith,
  strcmp_eq_refl (cache_file cache_dir alias.name name),
  fgets-line 45 alias.address,
  take_all 45 alias.address,
)
