-- ===== src/Tls/Gnutls.antt =====
-- The back end for GnuTLS (src/gnutls.c).
use inadyn.Prelude.{
  ℕ, zero, suc, Bool, true, false, not, ◌&&◌, ◌||◌, Option, none, some, List, [], ◌==◌,
  if◌then◌else◌,
}
use inadyn.Prelude.Text.{Str}
use inadyn.Error.{
  rc_ok, rc_https_no_trusted_ca_store, rc_https_out_of_memory, rc_https_failed_connect,
  rc_https_failed_getting_cert, rc_https_send_error, rc_https_recv_error, rc_https_sni_error,
  rc_https_invalid_request,
}
use inadyn.Tcp.{Net, tcp_init}
use inadyn.Tls.Io.{
  Conn, Step, load_defaults, make_session, set_options, set_name, handshake, get_certificate,
  load_file, bye, global_init, set_verify_function, free_credentials, global_deinit, Tls, step,
  allocate, release, Written, Reading, read_ended, Fetched, read_loop, write_loop,
}
use inadyn.Tls.Openssl.{Policy, cafile1, cafile2, with_port, exit_socket, plain_send, plain_recv}

-- What a handshake answers: done, a failure that is not fatal, or a fatal one.
pub data Handshake : Type 0 where
  shaken retry fatal : Handshake

-- What gnutls_record_recv answers, with the end of a connection that was not announced.
pub data Receipt : Type 0 where
  receipt : Reading → Receipt
  premature_termination : Receipt

-- The answers of the library. Whether it has gnutls_certificate_set_x509_system_trust as a macro, and
-- what that loads, is one answer. Peers are asked for a certificate that can be initialised.
pub record Gnutls : Type 0 where
  pub is_recent : Bool
  pub system_trust : List Step → Bool
  pub trust_file : List Step → Bool
  pub new_session : List Step → Bool
  pub server_name : List Step → Bool
  pub priority : List Step → Bool
  pub handshake : List Step → Handshake
  pub peer_certificate : List Step → Bool
  pub certificate_init : List Step → Bool
  pub send : List Step → Written
  pub recv : List Step → Receipt

-- The credentials are an object of the library until the program ends. `none` stands for an exit of the
-- program, where the library is too old.
unfoldable pub ssl_init : Gnutls → Tls → Option (ℕ × Tls)
ssl_init lib t =
    if lib.is_recent
    then some (0, step set_verify_function (allocate (step global_init t)))
    else none

unfoldable pub ssl_exit : Tls → Tls
ssl_exit t = step global_deinit (release (step free_credentials t))

-- The bits of the status of a verification: three that are named, and whether another one is set.
pub record Status : Type 0 where
  pub invalid : Bool
  pub not_activated : Bool
  pub another : Bool

-- What the library says of the certificate of the peer. A failure is a negative number.
pub record Peer : Type 0 where
  pub verifies : Bool
  pub status : Status
  pub is_x509 : Bool
  pub can_init : Bool
  pub has_list : Bool
  pub imports : Bool
  pub host_matches : Bool

-- Whether the certificate counts as trusted: a clock that is wrong excuses an early certificate.
unfoldable pub is_trusted : Bool → Status → Bool
is_trusted broken_rtc status =
    not status.invalid || (status.not_activated && broken_rtc && not status.another)

-- Whether `verify_certificate_callback` returns 0.
unfoldable pub verify_certificate_callback : Policy → Peer → Bool
unfolding is_trusted
verify_certificate_callback policy peer =
    let error = not policy.secure_ssl in
    if not peer.verifies
    then error
    else if not (is_trusted policy.broken_rtc peer.status)
    then error
    else if not peer.is_x509
    then error
    else if not peer.can_init
    then error
    else if not peer.has_list
    then error
    else if not peer.imports
    then error
    else if not peer.host_matches
    then error
    else true

abbrev fall_back : Gnutls → Tls → Bool × Tls
fall_back lib t =
    let t₁ = step (load_file cafile1) t in
    if lib.trust_file t.steps
    then (true, t₁)
    else (lib.trust_file t₁.steps, step (load_file cafile2) t₁)

-- Whether a store of trusted certificates is found.
unfoldable pub ssl_set_ca_location : Gnutls → Policy → Tls → Bool × Tls
ssl_set_ca_location lib policy t = elim policy.ca_trust_file [
  | some file ↦ (lib.trust_file t.steps, step (load_file file) t)
  | none ↦
      if lib.system_trust t.steps
      then (true, step load_defaults t)
      else fall_back lib (step load_defaults t)
]

-- The session is released, also where there is none.
unfoldable pub ssl_close : Conn → Tls → ℕ × Conn × Tls
ssl_close c t =
    if c.ssl_enabled
    then exit_socket c (release (if c.connected then step bye t else t))
    else exit_socket c t

unfoldable pub ssl_fail : ℕ → Conn → Tls → ℕ × Conn × Tls
unfolding ssl_close
ssl_fail rc c t = let closed = ssl_close c t in (rc, closed.1, closed.2)

-- The loop around the handshake: whether it ended without a fatal error.
unfoldable pub handshake_loop : Gnutls → ℕ → Tls → Option (Bool × Tls)
handshake_loop lib zero t = none
handshake_loop lib (suc fuel) t =
    let t₁ = step handshake t in
    elim (lib.handshake t.steps) [
      | shaken ↦ some (true, t₁)
      | retry ↦ handshake_loop lib fuel t₁
      | fatal ↦ some (false, t₁)
    ]

-- What follows the handshake: the certificate is only printed.
unfoldable pub after_handshake : Gnutls → Conn → Bool × Tls → ℕ × Conn × Tls
unfolding ssl_fail
after_handshake lib c (ok, t) =
    let c₁ = record c { connected = true } in
    let t₁ = step get_certificate t in
    if ok
    then if lib.peer_certificate t.steps && not (lib.certificate_init t₁.steps)
      then ssl_fail rc_https_failed_getting_cert c₁ t₁
      else (0, c₁, t₁)
    else ssl_fail rc_https_failed_connect c t

-- From the connection on: a session that was made is left behind where there is no connection.
unfoldable pub connect : Net → Gnutls → ℕ → ℕ → Conn → Tls → Option (ℕ × Conn × Tls)
unfolding handshake_loop after_handshake
connect net lib fuel force c t =
    let (rc, sock, k) = tcp_init net force (with_port c.sock) t.kernel in
    let c₁ = record c { sock = sock } in
    let t₁ = record t { kernel = k } in
    if rc == rc_ok
    then elim (handshake_loop lib fuel t₁) [
      | none ↦ none
      | some r ↦ some (after_handshake lib c₁ r)
    ]
    else some (rc, c₁, t₁)

-- From the session on.
unfoldable pub open_session : Net → Gnutls → ℕ → ℕ → Conn → Tls → Option (ℕ × Conn × Tls)
unfolding ssl_fail
open_session net lib fuel force c t =
    let t₁ = step make_session t in
    let c₁ = record c { ssl = true } in
    let t₂ = step set_name (allocate t₁) in
    let t₃ = step set_options t₂ in
    if lib.new_session t.steps
    then if lib.server_name t₁.steps
      then if lib.priority t₂.steps
        then connect net lib fuel force c₁ t₃
        else some (ssl_fail rc_https_invalid_request c₁ t₃)
      else some (ssl_fail rc_https_sni_error c₁ t₂)
    else some (rc_https_out_of_memory, c, t₁)

unfoldable pub ssl_open : Net → Gnutls → Policy → ℕ → ℕ → Conn → Tls → Option (ℕ × Conn × Tls)
ssl_open net lib policy fuel force c t =
    let (rc, sock, k) = tcp_init net force c.sock t.kernel in
    let (found, t₁) = ssl_set_ca_location lib policy t in
    if c.ssl_enabled
    then if found
      then open_session net lib fuel force c t₁
      else some (rc_https_no_trusted_ca_store, c, t₁)
    else some (rc, record c { sock = sock }, record t { kernel = k })

unfoldable pub ssl_send : Net → Gnutls → ℕ → Conn → Str → Tls → Option (ℕ × Tls)
ssl_send net lib fuel c buf t =
    if c.ssl_enabled
    then write_loop lib.send rc_https_send_error fuel buf t
    else plain_send net fuel c buf t

-- A connection that ends early counts as one that ends.
abbrev pub reading_of : Receipt → Reading
reading_of (receipt r) = r
reading_of premature_termination = read_ended

unfoldable pub ssl_recv : Net → Gnutls → ℕ → Conn → ℕ → Tls → Option Fetched
ssl_recv net lib fuel c len t =
    if c.ssl_enabled
    then read_loop (λ steps. reading_of (lib.recv steps)) rc_https_recv_error fuel len [] t
    else plain_recv net fuel c len t
