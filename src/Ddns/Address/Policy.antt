-- ===== src/Ddns/Address/Policy.antt =====
-- Which addresses may be sent (`is_address_valid`, src/ddns.c).
use inadyn.Prelude.{
  ℕ, zero, suc, ◌<◌, ◌≤◌, ◌≡◌, ◌≢◌, refl, Bool, true, false, Option, none, some, List, [], ◌∷◌,
  arith, length, Option-cases, inl, inr, ◌*◌, ◌/◌, ◌^◌, ◌++◌, ◌⊎◌, any,
}
use inadyn.Prelude.Text.{Str, strcmp_eq, starts_with}
use inadyn.World.{Family, inet, inet6}
use inadyn.Ddns.State.{Options}
use inadyn.Ddns.Address.{
  Inet, is_address_valid, is_excepted, except, tail, behind, accept4, accept6, is_local_ipv4,
}
use inadyn.Ddns.Address.{
  candidate4, candidate6, parse_my_address, parse_ipv4_address, parse_ipv6_address, search_address,
  strpbrk, span,
}

starts_with-append :
    (host rest entry : Str) → strcmp_eq (host ++ rest) entry ≡ true → starts_with entry host ≡ true
starts_with-append [] rest entry h = refl
starts_with-append (c ∷ host) rest [] h = ground arith
starts_with-append (c ∷ host) rest (d ∷ entry) h =
    ground (arith, starts_with-append host rest entry)

any_prefix :
    (host rest : Str) (entries : List Str)
    → any (strcmp_eq (host ++ rest)) entries ≡ true
    → any (λ entry. starts_with entry host) entries ≡ true
any_prefix host rest [] h = ground arith
any_prefix host rest (e ∷ entries) h =
    ground (arith, starts_with-append host rest e, any_prefix host rest entries)

module _ (accept : ℕ → Bool) (candidate : Str → Option Str) where
  -- What holds of every candidate holds of what the loop finds.
  search_address-all :
      (p : Str → Bool)
      → ((run a : Str) → candidate run ≡ some a → p a ≡ true)
      → (fuel : ℕ) (s a : Str) → search_address accept candidate fuel s ≡ some a
      → p a ≡ true
  unfolding search_address
  search_address-all p keep zero s a h = ground arith
  search_address-all p keep (suc fuel) s a h = elim (Option-cases (strpbrk accept s)) [
    | inl nowhere ↦ ground arith
    | inr (needle, here) ↦ ground (
      arith,
      here,
      keep (span accept needle) a,
      search_address-all p keep fuel (tail (behind accept needle)) a,
    )
  ]

  -- With no candidate the loop finds nothing.
  search_address-none :
      ((run : Str) → candidate run ≡ none)
      → (fuel : ℕ) (s : Str) → search_address accept candidate fuel s ≡ none
  unfolding search_address
  search_address-none never zero s = refl
  search_address-none never (suc fuel) s = elim (Option-cases (strpbrk accept s)) [
    | inl nowhere ↦ ground arith
    | inr (needle, here) ↦ ground (
      arith,
      here,
      never (span accept needle),
      search_address-none never fuel (tail (behind accept needle)),
    )
  ]

module _ (lib : Inet) (opts : Options) where
  candidate4-valid :
      (run a : Str) → candidate4 lib opts run ≡ some a → is_address_valid lib opts inet a ≡ true
  unfolding candidate4
  candidate4-valid run a h = ground arith

  candidate6-valid :
      (run a : Str) → candidate6 lib opts run ≡ some a → is_address_valid lib opts inet6 a ≡ true
  unfolding candidate6
  candidate6-valid run a h = ground arith

  -- An address that is taken from a text has passed the validator, for IPv6 or for IPv4.
  pub parse_my_address-valid :
      (buffer a : Str)
      → parse_my_address lib opts buffer ≡ some a
      → (is_address_valid lib opts inet6 a ≡ true) ⊎ (is_address_valid lib opts inet a ≡ true)
  unfolding parse_my_address parse_ipv4_address parse_ipv6_address
  parse_my_address-valid buffer a h = ground (
    arith,
    search_address-all accept6 (candidate6 lib opts) (is_address_valid lib opts inet6)
        candidate6-valid (suc (length buffer)) buffer a,
    search_address-all accept4 (candidate4 lib opts) (is_address_valid lib opts inet)
        candidate4-valid (suc (length buffer)) buffer a,
  )

  candidate6-disallowed :
      opts.verify_addr ≡ true
      → opts.allow_ipv6 ≡ false
      → (run : Str) → candidate6 lib opts run ≡ none
  unfolding candidate6 is_address_valid
  candidate6-disallowed v d run = ground arith

  -- With verification on and IPv6 not allowed, IPv6 addresses in the text are passed over: the answer
  -- is that of the search for IPv4 alone.
  pub parse_my_address-ipv4_only :
      opts.verify_addr ≡ true
      → opts.allow_ipv6 ≡ false
      → (buffer : Str) → parse_my_address lib opts buffer ≡ parse_ipv4_address lib opts buffer
  unfolding parse_my_address parse_ipv6_address
  parse_my_address-ipv4_only v d buffer = ground (
    arith,
    search_address-none accept6 (candidate6 lib opts) (candidate6-disallowed v d)
        (suc (length buffer)) buffer,
  )

  -- With verification on, an IPv4 address that is accepted is one that inet_pton reads, and lies in
  -- none of 0.0.0.0/8, 127.0.0.0/8, 169.254.0.0/16 and 224.0.0.0/3.
  pub is_address_valid-ipv4 :
      opts.verify_addr ≡ true
      → (host : Str) → is_address_valid lib opts inet host ≡ true
      → (addr : ℕ) × (lib.pton4 host ≡ some addr)
        × (2 ^ 24 ≤ addr)
        × (addr / 2 ^ 29 ≢ 7)
        × ((addr < 127 * 2 ^ 24) ⊎ (128 * 2 ^ 24 ≤ addr))
        × ((addr < 43518 * 2 ^ 16) ⊎ (43519 * 2 ^ 16 ≤ addr))
  unfolding is_address_valid is_local_ipv4
  is_address_valid-ipv4 v host h = elim (Option-cases (lib.pton4 host)) [
    | inl e ↦ ground arith
    | inr (addr, e) ↦ (addr, e, ground arith, ground arith, ground arith, ground arith)
  ]

  -- Every text with which the name of an excepted address begins is refused, not only the address.
  pub prefix_refused :
      (family : Family) (host rest : Str)
      → any (strcmp_eq (host ++ rest)) except ≡ true
      → is_address_valid lib opts family host ≡ false
  unfolding is_address_valid is_excepted
  prefix_refused family host rest h = ground (arith, any_prefix host rest except h)
