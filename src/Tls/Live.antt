-- ===== src/Tls/Live.antt =====
-- Which objects of the TLS library ssl_open leaves allocated (src/openssl.c, src/gnutls.c).
use inadyn.Prelude.{
  ℕ, zero, suc, ◌+◌, ◌-◌, ◌≤◌, ◌<◌, ◌≡◌, ◌≢◌, ◌&&◌, ◌||◌, not, ◌∙◌, refl, Bool, true, false, List,
  ◌∷◌, ◌==◌, arith, if◌then◌else◌, Option-cases, inl, inr, Returns, length,
}
use inadyn.Error.{rc_ok}
use inadyn.Tcp.{Net, tcp_init}
use inadyn.Tls.Io.{
  Conn, Step, Tls, step, allocate, make_context, make_session, set_name, set_options, handshake,
}
use inadyn.Tls.Openssl
use inadyn.Tls.Openssl.{Openssl, Policy, with_port}
use inadyn.Tls.Gnutls
use inadyn.Tls.Gnutls.{Gnutls, retry}

-- The library's objects after an open that was done without them before, all of which a connection that
-- is open holds.
abbrev pub Balanced : ℕ → ℕ × Conn × Tls → Type 0
Balanced live r =
    (r.2.live ≡ (if r.0 == rc_ok then live + 2 else live))
    × ((if r.0 == rc_ok then r.1.ssl_enabled && r.1.ssl && r.1.ssl_ctx else true) ≡ true)

shake_hands-Balanced :
    (lib : Openssl) (c : Conn) (t : Tls) (live : ℕ)
    → c.ssl_enabled ≡ true
    → c.ssl ≡ true
    → c.ssl_ctx ≡ true
    → t.live ≡ live + 2
    → Balanced live (Openssl.shake_hands lib c t)
unfolding Openssl.shake_hands
shake_hands-Balanced lib c t live on ssl ctx h = ground arith

open_session-Balanced :
    (lib : Openssl) (c : Conn) (t : Tls) (live : ℕ)
    → c.ssl_enabled ≡ true
    → c.ssl ≡ false
    → c.ssl_ctx ≡ true
    → t.live ≡ live + 1
    → Balanced live (Openssl.open_session lib c t)
unfolding Openssl.open_session
open_session-Balanced lib c t live on ssl ctx h = ground arith

ca_location-live :
    (lib : Openssl) (policy : Policy) (t : Tls)
    → (Openssl.ssl_set_ca_location lib policy t).1.live ≡ t.live
unfolding Openssl.ssl_set_ca_location
ca_location-live lib policy t = ground arith

open_context-Balanced :
    (lib : Openssl) (policy : Policy) (c : Conn) (t : Tls) (live : ℕ)
    → c.ssl_enabled ≡ true
    → c.ssl ≡ false
    → c.ssl_ctx ≡ false
    → t.live ≡ live
    → Balanced live (Openssl.open_context lib policy c t)
unfolding Openssl.open_context
open_context-Balanced lib policy c t live on ssl ctx h =
    let t₁ = allocate (step make_context t) in
    let c₁ = record c { ssl_ctx = true } in
    let found = Openssl.ssl_set_ca_location lib policy t₁ in
    ground (arith, ca_location-live lib policy t₁, open_session-Balanced lib c₁ found.1 live)

-- With OpenSSL, opening a connection over HTTPS that holds no object of the library leaves two of them
-- allocated, its context and its session, which the connection then holds, where it succeeds, and none
-- where it fails, on every path.
pub ssl_open-Balanced :
    (net : Net) (lib : Openssl) (policy : Policy) (force : ℕ) (c : Conn) (t : Tls)
    → c.ssl_enabled ≡ true
    → c.ssl ≡ false
    → c.ssl_ctx ≡ false
    → Balanced t.live (Openssl.ssl_open net lib policy force c t)
unfolding Openssl.ssl_open
ssl_open-Balanced net lib policy force c t on ssl ctx =
    let r = tcp_init net force (with_port c.sock) t.kernel in
    ground (
      arith,
      open_context-Balanced lib policy (record c { sock = r.1 }) (record t { kernel = r.2 }) t.live,
    )

-- With OpenSSL, a connection over HTTPS that was opened leaves no object of the library allocated by
-- the open behind an ssl_close.
pub ssl_close-ssl_open :
    (net : Net) (lib : Openssl) (policy : Policy) (force : ℕ) (c : Conn) (t : Tls)
    → c.ssl_enabled ≡ true
    → c.ssl ≡ false
    → c.ssl_ctx ≡ false
    → (Openssl.ssl_open net lib policy force c t).0 ≡ rc_ok
    → let (rc, c', t') = Openssl.ssl_open net lib policy force c t in
      (Openssl.ssl_close c' t').2.live ≡ t.live
unfolding Openssl.ssl_close
ssl_close-ssl_open net lib policy force c t on ssl ctx h =
    let balanced = ssl_open-Balanced net lib policy force c t on ssl ctx in
    ground (arith, balanced.0, balanced.1)

gnutls_ca_location-steps :
    (lib : Gnutls) (policy : Policy) (t : Tls)
    → let t' = (Gnutls.ssl_set_ca_location lib policy t).1 in t' ≡ record t { steps = t'.steps }
unfolding Gnutls.ssl_set_ca_location
gnutls_ca_location-steps lib policy t = ground arith

-- The session behind an open: it is left where the open succeeds, and where it is `missing` the
-- connection that tcp_init should make, whose code is then the result.
abbrev pub Accounted : ℕ → ℕ → Bool → ℕ × Conn × Tls → Type 0
Accounted live rc missing r =
    (r.2.live ≡ (if r.0 == rc_ok || missing then suc live else live))
    × ((if missing then r.0 else rc) ≡ rc)

-- Whether the library makes a session and takes the name of the server and its options.
abbrev pub has_session : Gnutls → List Step → Bool
has_session lib steps =
    lib.new_session steps
    && lib.server_name (make_session ∷ steps)
    && lib.priority (set_name ∷ make_session ∷ steps)

handshake_loop-Returns :
    (lib : Gnutls) (patience : ℕ)
    → ((steps : List Step) → patience ≤ length steps → lib.handshake steps ≢ retry)
    → (fuel : ℕ) (t : Tls) → patience - length t.steps < fuel
    → Returns (λ r. r.1.live ≡ t.live) (Gnutls.handshake_loop lib fuel t)
unfolding Gnutls.handshake_loop
handshake_loop-Returns lib patience settles zero t enough = absurd (omega arith)
handshake_loop-Returns lib patience settles (suc fuel) t enough =
    let t₁ = step handshake t in
    ground (arith, settles t.steps, handshake_loop-Returns lib patience settles fuel t₁)

after_handshake-Accounted :
    (lib : Gnutls) (c : Conn) (r : Bool × Tls) (live : ℕ)
    → c.ssl_enabled ≡ true
    → r.1.live ≡ suc live
    → Accounted live rc_ok false (Gnutls.after_handshake lib c r)
unfolding Gnutls.after_handshake Gnutls.ssl_fail Gnutls.ssl_close
after_handshake-Accounted lib c r live on h = ground arith

module _ (net : Net) (lib : Gnutls) (patience : ℕ)
    (settles : (steps : List Step) → patience ≤ length steps → lib.handshake steps ≢ retry) where
  connect-Accounted :
      (fuel force : ℕ) (c : Conn) (t : Tls) (live : ℕ)
      → patience < fuel
      → c.ssl_enabled ≡ true
      → t.live ≡ suc live
      → let rc = (tcp_init net force (with_port c.sock) t.kernel).0 in
        Returns (Accounted live rc (not (rc == rc_ok))) (Gnutls.connect net lib fuel force c t)
  unfolding Gnutls.connect
  connect-Accounted fuel force c t live enough on h =
      let (rc, sock, k) = tcp_init net force (with_port c.sock) t.kernel in
      let c₁ = record c { sock = sock } in
      let t₁ = record t { kernel = k } in
      let shaken = handshake_loop-Returns lib patience settles fuel t₁ (omega arith) in
      elim (Option-cases (Gnutls.handshake_loop lib fuel t₁)) [
        | inl e ↦ absurd (rw e at shaken)
        | inr (r, e) ↦
            (let done = after_handshake-Accounted lib c₁ r live on ((rw e at shaken) ∙ h) in
              ground (arith, e, done))
      ]

  open_session-Accounted :
      (fuel force : ℕ) (c : Conn) (t : Tls)
      → patience < fuel
      → c.ssl_enabled ≡ true
      → let rc = (tcp_init net force (with_port c.sock) t.kernel).0 in
        Returns
          (Accounted t.live rc (has_session lib t.steps && not (rc == rc_ok)))
          (Gnutls.open_session net lib fuel force c t)
  unfolding Gnutls.open_session Gnutls.ssl_fail Gnutls.ssl_close
  open_session-Accounted fuel force c t enough on =
      let t₃ = step set_options (step set_name (allocate (step make_session t))) in
      ground
        (arith, connect-Accounted fuel force (record c { ssl = true }) t₃ t.live enough on refl)

  -- With GnuTLS, if from some call on no handshake has to be repeated, ssl_open of a connection over HTTPS
  -- returns, and leaves one more session allocated exactly when it succeeds, or when the library found
  -- its certificates, made a session and took its name and options, and tcp_init then failed, whose code
  -- is the result. On each other path where it fails the session, if one was made, is released.
  pub ssl_open-leaks :
      (policy : Policy) (fuel force : ℕ) (c : Conn) (t : Tls)
      → patience < fuel
      → c.ssl_enabled ≡ true
      → let (found, t₁) = Gnutls.ssl_set_ca_location lib policy t in
        let rc = (tcp_init net force (with_port c.sock) t.kernel).0 in
        Returns
          (Accounted t.live rc (found && has_session lib t₁.steps && not (rc == rc_ok)))
          (Gnutls.ssl_open net lib policy fuel force c t)
  unfolding Gnutls.ssl_open
  ssl_open-leaks policy fuel force c t enough on =
      let t₁ = (Gnutls.ssl_set_ca_location lib policy t).1 in
      ground (
        arith,
        gnutls_ca_location-steps lib policy t,
        open_session-Accounted fuel force c t₁ enough on,
      )
