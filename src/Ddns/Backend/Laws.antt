-- ===== src/Ddns/Backend/Laws.antt =====
-- Laws of the order in which the ways to ask are tried (src/ddns.c).
use inadyn.Prelude.{◌≡◌, [], arith}
use inadyn.Error.{rc_ok}
use inadyn.World.{Env}
use inadyn.Ddns.State.{Options}
use inadyn.Ddns.Address.{Inet}
use inadyn.Ddns.Query.{Found, get_address_remote}
use inadyn.Ddns.Query.Laws.{
  IsValid, SameServer, get_address_remote-IsValid, get_address_cmd-IsValid,
  get_address_iface-IsValid, get_address_remote-same, get_address_cmd-same, get_address_iface-same,
}
use inadyn.Ddns.Backend.{with_default, retry_default, ask_remote, get_address_backend}

module _ (env : Env) (lib : Inet) (opts : Options) where
  retry_default-IsValid :
      (f : Found)
      → (retry_default env lib opts f).rc ≡ rc_ok
      → IsValid lib opts (retry_default env lib opts f)
  unfolding retry_default
  retry_default-IsValid f h =
      ground
        (arith, get_address_remote-IsValid env lib opts (record f { info = with_default f.info }))

  ask_remote-IsValid :
      (f : Found)
      → (ask_remote env lib opts f).rc ≡ rc_ok
      → IsValid lib opts (ask_remote env lib opts f)
  unfolding ask_remote
  ask_remote-IsValid f h = ground (
    arith,
    get_address_remote-IsValid env lib opts f,
    retry_default-IsValid (get_address_remote env lib opts f),
  )

  -- Whichever way a provider's address is had, by command, interface, its server or the fallback, a
  -- success answers with an address that has passed the validator for IPv6 or for IPv4.
  pub get_address_backend-IsValid :
      (f : Found)
      → (get_address_backend env lib opts f).rc ≡ rc_ok
      → IsValid lib opts (get_address_backend env lib opts f)
  unfolding get_address_backend
  get_address_backend-IsValid f₀ h =
      let f : Found = record f₀ { address = [] } in
      ground (
        arith,
        get_address_cmd-IsValid env lib opts f,
        get_address_iface-IsValid env lib opts f.info.ifname f,
        get_address_iface-IsValid env lib opts opts.iface f,
        ask_remote-IsValid f,
      )

  retry_default-same : (f : Found) → SameServer (retry_default env lib opts f).info f.info
  unfolding retry_default
  retry_default-same f =
      ground (arith, get_address_remote-same env lib opts (record f { info = with_default f.info }))

  ask_remote-same : (f : Found) → SameServer (ask_remote env lib opts f).info f.info
  unfolding ask_remote
  ask_remote-same f = ground (
    arith,
    get_address_remote-same env lib opts f,
    retry_default-same (get_address_remote env lib opts f),
  )

  -- The configured checkip server, its path and its TLS mode survive every query, failures and the
  -- fallback to the built-in server included.
  pub get_address_backend-same :
      (f : Found) → SameServer (get_address_backend env lib opts f).info f.info
  unfolding get_address_backend
  get_address_backend-same f₀ =
      let f : Found = record f₀ { address = [] } in
      ground (
        arith,
        get_address_cmd-same env lib opts f,
        get_address_iface-same env lib opts f.info.ifname f,
        get_address_iface-same env lib opts opts.iface f,
        ask_remote-same f,
      )
