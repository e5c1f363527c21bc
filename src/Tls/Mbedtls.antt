-- ===== src/Tls/Mbedtls.antt =====
-- The back end for Mbed TLS (src/mbedtls.c). The options on certificates are not looked at.
use mathlib.Core.Option
use inadyn.Prelude.{
  ℕ, zero, suc, ◌+◌, ◌-◌, Bool, true, false, Option, none, some, List, [], ◌==◌, if◌then◌else◌,
}
use inadyn.Prelude.Text.{Str}
use inadyn.Error.{
  rc_ok, rc_https_no_trusted_ca_store, rc_https_out_of_memory, rc_tcp_connect_failed,
  rc_https_send_error, rc_https_recv_error, rc_https_sni_error,
}
use inadyn.Tcp.{Net, tcp_init}
use inadyn.Tls.Io.{
  Conn, Step, make_context, make_session, set_options, set_name, handshake, load_file, bye, Tls,
  step, Written, Reading, Fetched, read_loop, write_loop,
}
use inadyn.Tls.Openssl.{cafile1, cafile2, with_port, exit_socket, plain_send, plain_recv}
use inadyn.Tls.Gnutls.{Handshake, shaken, retry, fatal}

-- The answers of the library. The end of a stream and its announcement by the peer are both its end.
pub record Mbedtls : Type 0 where
  pub seed : List Step → Bool
  pub parse_file : List Step → Bool
  pub net_connect : List Step → Bool
  pub config_defaults : List Step → Bool
  pub setup : List Step → Bool
  pub set_hostname : List Step → Bool
  pub handshake : List Step → Handshake
  pub write : List Step → Written
  pub read : List Step → Reading

-- The six objects that ssl_open initialises are released together.
abbrev pub objects : ℕ
objects = 6

unfoldable pub ssl_close : Conn → Tls → ℕ × Conn × Tls
ssl_close c t =
    let t₁ = (if c.connected then step bye t else t) in
    if c.ssl_enabled
    then exit_socket c (record t₁ { live = t₁.live - objects })
    else exit_socket c t

-- ssl_close, and an error.
unfoldable pub fail : ℕ → Conn → Tls → ℕ × Conn × Tls
unfolding ssl_close
fail rc c t = let closed = ssl_close c t in (rc, closed.1, closed.2)

-- `while (1)` around the handshake: whether it succeeded.
unfoldable pub handshake_loop : Mbedtls → ℕ → Tls → Option (Bool × Tls)
handshake_loop lib zero t = none
handshake_loop lib (suc fuel) t =
    let t₁ = step handshake t in
    elim (lib.handshake t.steps) [
      | shaken ↦ some (true, t₁)
      | retry ↦ handshake_loop lib fuel t₁
      | fatal ↦ some (false, t₁)
    ]

unfoldable pub after_handshake : Conn → Bool × Tls → ℕ × Conn × Tls
unfolding fail
after_handshake c (ok, t) =
    if ok then (0, record c { connected = true }, t) else fail rc_https_out_of_memory c t

-- The trusted certificates: a second file is read where the first one fails.
unfoldable pub load_certificates : Mbedtls → Tls → Bool × Tls
load_certificates lib t =
    let t₁ = step (load_file cafile1) t in
    if lib.parse_file t.steps
    then (true, t₁)
    else (lib.parse_file t₁.steps, step (load_file cafile2) t₁)

-- From the library's own connection on.
unfoldable pub configure : Mbedtls → ℕ → Conn → Tls → Option (ℕ × Conn × Tls)
unfolding fail handshake_loop after_handshake
configure lib fuel c t =
    let t₁ = step make_session t in
    let t₂ = step set_options t₁ in
    let t₃ = step make_session t₂ in
    let t₄ = step set_name t₃ in
    if lib.net_connect t.steps
    then if lib.config_defaults t₁.steps
      then if lib.setup t₂.steps
        then if lib.set_hostname t₃.steps
          then elim (handshake_loop lib fuel t₄) [
            | none ↦ none
            | some r ↦ some (after_handshake c r)
          ]
          else some (fail rc_https_sni_error c t₄)
        else some (fail rc_https_out_of_memory c t₃)
      else some (fail rc_https_out_of_memory c t₂)
    else some (fail rc_tcp_connect_failed c t₁)

-- From the objects on.
unfoldable pub prepare : Mbedtls → ℕ → Conn → Tls → Option (ℕ × Conn × Tls)
unfolding fail configure load_certificates
prepare lib fuel c t =
    let t₁ = step make_context (record t { live = t.live + objects }) in
    let (found, t₂) = load_certificates lib t₁ in
    if lib.seed t.steps
    then if found then configure lib fuel c t₂ else some (fail rc_https_no_trusted_ca_store c t₂)
    else some (fail rc_https_out_of_memory c t₁)

unfoldable pub ssl_open : Net → Mbedtls → ℕ → ℕ → Conn → Tls → Option (ℕ × Conn × Tls)
unfolding prepare
ssl_open net lib fuel force c t =
    let target = (if c.ssl_enabled then with_port c.sock else c.sock) in
    let (rc, sock, k) = tcp_init net force target t.kernel in
    let c₁ = record c { sock = sock } in
    let t₁ = record t { kernel = k } in
    if c.ssl_enabled
    then if rc == rc_ok then prepare lib fuel c₁ t₁ else some (rc, c₁, t₁)
    else some (rc, c₁, t₁)

unfoldable pub ssl_send : Net → Mbedtls → ℕ → Conn → Str → Tls → Option (ℕ × Tls)
ssl_send net lib fuel c buf t =
    if c.ssl_enabled
    then write_loop lib.write rc_https_send_error fuel buf t
    else plain_send net fuel c buf t

-- A stream that ended needs no goodbye.
abbrev ended : Conn → Fetched → Fetched × Conn
ended c g = (g, record c { connected = if g.rc == rc_ok then false else c.connected })

unfoldable pub ssl_recv : Net → Mbedtls → ℕ → Conn → ℕ → Tls → Option (Fetched × Conn)
ssl_recv net lib fuel c len t =
    if c.ssl_enabled
    then Option.map (ended c) (read_loop lib.read rc_https_recv_error fuel len [] t)
    else Option.map (λ g. (g, c)) (plain_recv net fuel c len t)

-- There is nothing to set up.
unfoldable pub ssl_init : Tls → ℕ × Tls
ssl_init t = (0, t)

unfoldable pub ssl_exit : Tls → Tls
ssl_exit t = t
