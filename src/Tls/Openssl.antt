-- ===== src/Tls/Openssl.antt =====
-- The back end for OpenSSL (src/openssl.c).
use inadyn.Prelude.{
  ℕ, zero, suc, Bool, true, false, ◌&&◌, ◌||◌, Option, none, some, List, [], ◌==◌, ltb,
  if◌then◌else◌,
}
use inadyn.Prelude.Text.{Str, codes}
use inadyn.Prelude.Int.{ℤ, is_negative}
use inadyn.Error.{
  rc_ok, rc_https_no_trusted_ca_store, rc_https_out_of_memory, rc_https_failed_connect,
  rc_https_failed_getting_cert, rc_https_send_error, rc_https_recv_error, rc_https_sni_error,
}
use inadyn.Tcp.{Net, Sock, tcp_init, tcp_exit, tcp_send, tcp_recv}
use inadyn.Tls.Io.{
  Conn, Step, make_context, load_defaults, make_session, set_name, handshake, get_certificate,
  load_file, write, bye, Tls, step, allocate, release, Written, written, write_again, write_failed,
  Reading, Fetched, read_loop, https_default_port,
}

-- The answers of the library. A handshake answers a number, negative for a failure.
pub record Openssl : Type 0 where
  pub new_context : List Step → Bool
  pub default_paths : List Step → Bool
  pub load_locations : List Step → Bool
  pub new_session : List Step → Bool
  pub host_name : List Step → Bool
  pub connect : List Step → ℤ
  pub certificate : List Step → Bool
  pub write : List Step → Written
  pub read : List Step → Reading

-- The options of the configuration file.
pub record Policy : Type 0 where
  pub secure_ssl : Bool
  pub broken_rtc : Bool
  pub ca_trust_file : Option Str

-- The verification errors that the code names, and all others.
pub data VerifyError : Type 0 where
  verified chain_too_long not_yet_valid other_error : VerifyError

abbrev pub is_not_yet_valid : VerifyError → Bool
is_not_yet_valid verified = false
is_not_yet_valid chain_too_long = false
is_not_yet_valid not_yet_valid = true
is_not_yet_valid other_error = false

-- `preverify_ok` with the error at a depth of the chain; whether the certificate is accepted.
unfoldable pub verify_callback : Policy → Bool → VerifyError → ℕ → Bool
verify_callback policy preverify_ok err depth =
    let ok = (if ltb 100 depth then false else preverify_ok) in
    let err' = (if ltb 100 depth then chain_too_long else err) in
    if policy.secure_ssl then ok || (policy.broken_rtc && is_not_yet_valid err') else true

abbrev pub cafile1 : Str
cafile1 = codes "/etc/ssl/certs/ca-certificates.crt"

abbrev pub cafile2 : Str
cafile2 = codes "/etc/pki/tls/certs/ca-bundle.trust.crt"

abbrev fall_back : Openssl → Tls → Bool × Tls
fall_back lib t =
    let t₁ = step (load_file cafile1) t in
    if lib.load_locations t.steps
    then (true, t₁)
    else (lib.load_locations t₁.steps, step (load_file cafile2) t₁)

-- Whether a store of trusted certificates is found.
unfoldable pub ssl_set_ca_location : Openssl → Policy → Tls → Bool × Tls
ssl_set_ca_location lib policy t = elim policy.ca_trust_file [
  | some file ↦ (lib.load_locations t.steps, step (load_file file) t)
  | none ↦
      if lib.default_paths t.steps
      then (true, step load_defaults t)
      else fall_back lib (step load_defaults t)
]

-- tcp_exit on the socket of a connection.
abbrev pub exit_socket : Conn → Tls → ℕ × Conn × Tls
exit_socket c t =
    let (rc, sock, k) = tcp_exit c.sock t.kernel in
    (rc, record c { sock = sock; connected = false }, record t { kernel = k })

abbrev free_session : Conn → Tls → Tls
free_session c t = if c.ssl then release (if c.connected then step bye t else t) else t

abbrev free_context : Conn → Tls → Tls
free_context c t = if c.ssl_ctx then release t else t

unfoldable pub ssl_close : Conn → Tls → ℕ × Conn × Tls
ssl_close c t =
    if c.ssl_enabled
    then exit_socket (record c { ssl = false; ssl_ctx = false }) (free_context c (free_session c t))
    else exit_socket c t

-- The context is still missing where only the socket is closed; `connected` is then false already.
unfoldable pub ssl_fail : ℕ → Conn → Tls → ℕ × Conn × Tls
unfolding ssl_close
ssl_fail rc c t =
    let closed = (if c.ssl_ctx then ssl_close c t else exit_socket c t) in (rc, closed.1, closed.2)

-- From the handshake on; a result of 0 counts as a success. The certificate is only printed.
unfoldable pub shake_hands : Openssl → Conn → Tls → ℕ × Conn × Tls
unfolding ssl_fail
shake_hands lib c t =
    let t₁ = step handshake t in
    let c₁ = record c { connected = true } in
    let t₂ = step get_certificate t₁ in
    if is_negative (lib.connect t.steps)
    then ssl_fail rc_https_failed_connect c t₁
    else if lib.certificate t₁.steps
    then (0, c₁, t₂)
    else ssl_fail rc_https_failed_getting_cert c₁ t₂

-- From the session on.
unfoldable pub open_session : Openssl → Conn → Tls → ℕ × Conn × Tls
unfolding ssl_fail shake_hands
open_session lib c t =
    let t₁ = step make_session t in
    let c₁ = record c { ssl = true } in
    let t₂ = step set_name (allocate t₁) in
    if lib.new_session t.steps
    then if lib.host_name t₁.steps then shake_hands lib c₁ t₂ else ssl_fail rc_https_sni_error c₁ t₂
    else ssl_fail rc_https_out_of_memory c t₁

-- From the context on.
unfoldable pub open_context : Openssl → Policy → Conn → Tls → ℕ × Conn × Tls
unfolding ssl_fail open_session ssl_set_ca_location
open_context lib policy c t =
    let t₁ = step make_context t in
    let c₁ = record c { ssl_ctx = true } in
    let (found, t₂) = ssl_set_ca_location lib policy (allocate t₁) in
    if lib.new_context t.steps
    then if found then open_session lib c₁ t₂ else ssl_fail rc_https_no_trusted_ca_store c₁ t₂
    else ssl_fail rc_https_out_of_memory c t₁

abbrev pub with_port : Sock → Sock
with_port sock = if sock.port == 0 then record sock { port = https_default_port } else sock

unfoldable pub ssl_open : Net → Openssl → Policy → ℕ → Conn → Tls → ℕ × Conn × Tls
unfolding open_context
ssl_open net lib policy force c t =
    let target = (if c.ssl_enabled then with_port c.sock else c.sock) in
    let (rc, sock, k) = tcp_init net force target t.kernel in
    let c₁ = record c { sock = sock } in
    let t₁ = record t { kernel = k } in
    if c.ssl_enabled
    then if rc == rc_ok then open_context lib policy c₁ t₁ else (rc, c₁, t₁)
    else (rc, c₁, t₁)

-- The loop of ssl_send: `err` tells whether it is still SSL_ERROR_WANT_WRITE, which a call that takes
-- the bytes does not change.
unfoldable pub send_loop : Openssl → ℕ → Bool → Str → Tls → Option (ℕ × Tls)
send_loop lib zero err buf t = none
send_loop lib (suc fuel) err buf t =
    let t₁ = step (write buf) t in
    elim (lib.write t.steps) [
      | written ↦ (let more = send_loop lib fuel true buf t₁ in if err then more else some (0, t₁))
      | write_again ↦ send_loop lib fuel true buf t₁
      | write_failed ↦ some (rc_https_send_error, t₁)
    ]

abbrev pub plain_send : Net → ℕ → Conn → Str → Tls → Option (ℕ × Tls)
plain_send net fuel c buf t = elim (tcp_send net fuel c.sock buf t.kernel) [
  | none ↦ none
  | some (rc, k) ↦ some (rc, record t { kernel = k })
]

unfoldable pub ssl_send : Net → Openssl → ℕ → Conn → Str → Tls → Option (ℕ × Tls)
unfolding send_loop
ssl_send net lib fuel c buf t =
    if c.ssl_enabled then send_loop lib fuel false buf t else plain_send net fuel c buf t

abbrev pub plain_recv : Net → ℕ → Conn → ℕ → Tls → Option Fetched
plain_recv net fuel c len t = elim (tcp_recv net fuel c.sock len t.kernel) [
  | none ↦ none
  | some g ↦ some (record { rc = g.rc; text = g.text; tls = record t { kernel = g.kernel } })
]

unfoldable pub ssl_recv : Net → Openssl → ℕ → Conn → ℕ → Tls → Option Fetched
ssl_recv net lib fuel c len t =
    if c.ssl_enabled
    then read_loop lib.read rc_https_recv_error fuel len [] t
    else plain_recv net fuel c len t

-- With a library since 1.1.0, which sets itself up.
unfoldable pub ssl_init : Tls → ℕ × Tls
ssl_init t = (0, t)

unfoldable pub ssl_exit : Tls → Tls
ssl_exit t = t
