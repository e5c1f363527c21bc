-- ===== src/Ddns/Query/Laws.antt =====
-- Laws of the ways to ask for an address (src/ddns.c).
use inadyn.Prelude.{
  ℕ, zero, suc, ◌≤◌, ◌<◌, ◌≡◌, ◌↔◌, ◌⊎◌, inl, inr, true, false, some, [], ◌∷◌, arith, leb, length,
  take, Option-cases,
}
use inadyn.Prelude.Text.{Str}
use inadyn.Error.{rc_ok}
use inadyn.World.{Env, inet, inet6, queried, emit}
use inadyn.Ddns.State.{Options, Info}
use inadyn.Ddns.Address.{Inet, is_address_valid, parse_my_address}
use inadyn.Ddns.Address.Policy.{parse_my_address-valid}
use inadyn.Ddns.Query.{
  Found, found_in, collect_addresses, server_transaction, get_address_remote, shell_transaction,
  get_address_cmd, get_address_iface, get_ipv4_address_iface,
}

length-take_lem : (n : ℕ) (s : Str) → leb n (length (take n s)) ≡ leb n (length s)
length-take_lem zero s = ground arith
length-take_lem (suc n) [] = ground arith
length-take_lem (suc n) (c ∷ s) = ground (arith, length-take_lem n s)

fault-shell_transaction :
    (env : Env) (cmd : Str) (f : Found) (output : Str)
    → env.popen f.world.history ≡ some output
    → f.world.fault ≡ false
    → 0 < f.ctx.work_buflen
    → (shell_transaction env cmd f).world.fault ≡ leb f.ctx.work_buflen (length output)
unfolding shell_transaction
fault-shell_transaction env cmd f output printed sound room =
    ground (arith, length-take_lem f.ctx.work_buflen output)

-- A command that prints at least as many bytes as the buffer holds makes the program write one byte
-- behind the buffer, and one that prints fewer does not.
pub shell_transaction-fault :
    (env : Env) (cmd : Str) (f : Found) (output : Str)
    → env.popen f.world.history ≡ some output
    → f.world.fault ≡ false
    → 0 < f.ctx.work_buflen
    → ((shell_transaction env cmd f).world.fault ≡ true) ↔ (f.ctx.work_buflen ≤ length output)
shell_transaction-fault env cmd f output printed sound room =
    let e = fault-shell_transaction env cmd f output printed sound room in
    (λ h. ground arith, λ h. ground arith)

-- The address that a query answers with is valid, for IPv6 or for IPv4.
abbrev pub IsValid : Inet → Options → Found → Type 0
IsValid lib opts f =
    (is_address_valid lib opts inet6 f.address ≡ true)
    ⊎ (is_address_valid lib opts inet f.address ≡ true)

-- The settings of the server that is asked.
pub record SameServer (a b : Info) : Type 0 where
  pub same_name : a.checkip_name ≡ b.checkip_name
  pub same_url : a.checkip_url ≡ b.checkip_url
  pub same_ssl : a.checkip_ssl ≡ b.checkip_ssl

module _ (env : Env) (lib : Inet) (opts : Options) where
  found_in-IsValid :
      (text : Str) (f : Found)
      → (found_in lib opts text f).rc ≡ rc_ok
      → IsValid lib opts (found_in lib opts text f)
  unfolding found_in
  found_in-IsValid text f h = elim (Option-cases (parse_my_address lib opts text)) [
    | inl e ↦ ground arith
    | inr (a, e) ↦ ground (arith, parse_my_address-valid lib opts text a)
  ]

  found_in-same : (text : Str) (f : Found) → SameServer (found_in lib opts text f).info f.info
  unfolding found_in
  found_in-same text f = ground arith

  pub get_address_remote-IsValid :
      (f : Found)
      → (get_address_remote env lib opts f).rc ≡ rc_ok
      → IsValid lib opts (get_address_remote env lib opts f)
  unfolding get_address_remote
  get_address_remote-IsValid f h =
      ground
        (arith, found_in-IsValid (server_transaction env f).1.rsp_body (server_transaction env f).0)

  pub get_address_cmd-IsValid :
      (f : Found)
      → (get_address_cmd env lib opts f).rc ≡ rc_ok
      → IsValid lib opts (get_address_cmd env lib opts f)
  unfolding get_address_cmd
  get_address_cmd-IsValid f h =
      let f' = shell_transaction env f.info.checkip_cmd f in
      ground (arith, found_in-IsValid f'.ctx.work_buf f')

  pub get_address_iface-IsValid :
      (ifname : Str) (f : Found)
      → (get_address_iface env lib opts ifname f).rc ≡ rc_ok
      → IsValid lib opts (get_address_iface env lib opts ifname f)
  unfolding get_address_iface
  get_address_iface-IsValid ifname f h = elim (Option-cases (env.ifaddrs f.world.history)) [
    | inl e ↦ unfold get_ipv4_address_iface in ground arith
    | inr (entries, e) ↦
        let text = collect_addresses lib opts ifname f.ctx.work_buflen entries [] in
        ground (
          arith,
          e,
          found_in-IsValid text (record f {
            ctx = record f.ctx { work_buf = text };
            world = emit (queried ifname) f.world;
          }),
        )
  ]

  server_transaction-same : (f : Found) → SameServer (server_transaction env f).0.info f.info
  unfolding server_transaction
  server_transaction-same f = ground arith

  pub get_address_remote-same :
      (f : Found) → SameServer (get_address_remote env lib opts f).info f.info
  unfolding get_address_remote
  get_address_remote-same f = ground (
    arith,
    server_transaction-same f,
    found_in-same (server_transaction env f).1.rsp_body (server_transaction env f).0,
  )

  pub get_address_cmd-same : (f : Found) → SameServer (get_address_cmd env lib opts f).info f.info
  unfolding get_address_cmd
  get_address_cmd-same f =
      let f' = shell_transaction env f.info.checkip_cmd f in
      ground (arith, found_in-same f'.ctx.work_buf f')

  pub get_address_iface-same :
      (ifname : Str) (f : Found) → SameServer (get_address_iface env lib opts ifname f).info f.info
  unfolding get_address_iface
  get_address_iface-same ifname f = elim (Option-cases (env.ifaddrs f.world.history)) [
    | inl e ↦ ground arith
    | inr (entries, e) ↦
        let text = collect_addresses lib opts ifname f.ctx.work_buflen entries [] in
        ground (
          arith,
          e,
          found_in-same text (record f {
            ctx = record f.ctx { work_buf = text };
            world = emit (queried ifname) f.world;
          }),
        )
  ]
