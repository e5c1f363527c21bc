-- ===== src/Tls/Loops.antt =====
-- Laws of the loops for receiving and sending (src/openssl.c, src/gnutls.c, src/mbedtls.c).
use mathlib.Core.Option
use inadyn.Prelude.{
  Option, none, ℕ, zero, suc, ◌+◌, ◌-◌, ◌≤◌, ◌<◌, ◌≡◌, ◌≢◌, ◌⊎◌, inl, inr, refl, true, false, some,
  List, [], ◌++◌, ◌==◌, arith, length, length-append, length-take-le, take, Returns, Bool-cases,
}
use inadyn.Prelude.Text.{Str}
use inadyn.Error.{rc_https_recv_error, rc_https_send_error}
use inadyn.Tcp.{Net}
use inadyn.Tls.Io.{
  Conn, Step, read, write, Tls, step, Reading, got, read_again, read_ended, read_failed, Written,
  written, write_failed, write_again, Fetched, read_loop, write_loop,
}
use inadyn.Tls.Openssl
use inadyn.Tls.Openssl.{Openssl, send_loop}
use inadyn.Tls.Gnutls
use inadyn.Tls.Gnutls.{Gnutls, reading_of}
use inadyn.Tls.Mbedtls
use inadyn.Tls.Mbedtls.{Mbedtls}

-- What a call for `len` bytes leaves: no more than that, and a code that is 0 or the error.
pub record Received (len : ℕ) (g : Fetched) : Type 0 where
  pub fits : length g.text ≤ len
  pub code : (g.rc ≡ 0) ⊎ (g.rc ≡ rc_https_recv_error)

-- The answers for receiving.
data IsReading : Reading → Type 0 where
  again : (r : Reading) → r ≡ read_again → IsReading r
  ended : (r : Reading) → r ≡ read_ended → IsReading r
  failed : (r : Reading) → r ≡ read_failed → IsReading r
  stored : (r : Reading) (s : Str) → r ≡ got s → IsReading r

Reading-IsReading : (r : Reading) → IsReading r
Reading-IsReading read_again = again read_again refl
Reading-IsReading read_ended = ended read_ended refl
Reading-IsReading read_failed = failed read_failed refl
Reading-IsReading (got s) = stored (got s) s refl

module _ (answer : List Step → Reading) (patience : ℕ)
    (settles : (steps : List Step) → patience ≤ length steps → answer steps ≢ read_again) where
  read_loop-Received :
      (fuel len room : ℕ) (text : Str) (t : Tls)
      → room + (patience - length t.steps) < fuel
      → length text + room ≡ len
      → Returns (Received len) (read_loop answer rc_https_recv_error fuel room text t)
  unfolding read_loop
  read_loop-Received zero len room text t enough sum = absurd (omega arith)
  read_loop-Received (suc fuel) len room text t enough sum =
      let t₁ = step (read room) t in
      elim (Reading-IsReading (answer t.steps)) [
        | again r e ↦ ground (arith, e, settles t.steps, read_loop-Received fuel len room text t₁)
        | ended r e ↦ ground (arith, e)
        | failed r e ↦ ground (arith, e)
        | stored r s e ↦
            let s' = take room s in
            let fits = length-take-le room s in
            let sum' = length-append text s' in
            elim (Bool-cases (length s' == 0)) [
              | inl none_left ↦ ground (arith, e, none_left)
              | inr some_left ↦ ground (
                arith,
                e,
                some_left,
                read_loop-Received fuel len (room - length s') (text ++ s') t₁
                    (ground (arith, some_left, fits)) (omega (arith, fits, sum')),
              )
            ]
      ]

Returns-map :
    {A B : Type 0} (P : A → Type 0) (Q : B → Type 0) (f : A → B)
    → ((a : A) → P a → Q (f a))
    → (o : Option A) → Returns P o
    → Returns Q (Option.map f o)
Returns-map P Q f keeps none h = h
Returns-map P Q f keeps (some a) h = keeps a h

-- Over HTTPS, if from some call on the library does not ask to be called again, ssl_recv of each of the
-- three back ends returns after at most one round for each byte of the buffer, one for each early request
-- to repeat and one more, stores no more than the buffer holds, and answers 0 or the error of receiving.
pub ssl_recv-Received :
    (net : Net) (openssl : Openssl) (gnutls : Gnutls) (mbedtls : Mbedtls) (patience : ℕ)
    → ((steps : List Step) → patience ≤ length steps → openssl.read steps ≢ read_again)
    → ((steps : List Step) → patience ≤ length steps → reading_of (gnutls.recv steps) ≢ read_again)
    → ((steps : List Step) → patience ≤ length steps → mbedtls.read steps ≢ read_again)
    → (fuel len : ℕ) (c : Conn) (t : Tls) → len + patience < fuel
    → c.ssl_enabled ≡ true
    → Returns (Received len) (Openssl.ssl_recv net openssl fuel c len t)
      × Returns (Received len) (Gnutls.ssl_recv net gnutls fuel c len t)
      × Returns (λ r. Received len r.0) (Mbedtls.ssl_recv net mbedtls fuel c len t)
unfolding Openssl.ssl_recv Gnutls.ssl_recv Mbedtls.ssl_recv
ssl_recv-Received net openssl gnutls mbedtls patience h k l fuel len c t enough on = (
  rw on (read_loop-Received openssl.read patience h fuel len len [] t (omega arith) (omega arith)),
  rw on (
      read_loop-Received (λ steps. reading_of (gnutls.recv steps)) patience k fuel len len [] t
        (omega arith) (omega arith)),
  rw on (
      Returns-map (Received len) _ _ (λ g r. r) _
        (read_loop-Received mbedtls.read patience l fuel len len [] t (omega arith) (omega arith))),
)

-- A loop that writes the whole text again and again until the library reports an error, which it answers
-- with; no other answer of the library ends it.
unfoldable pub write_until_failure : Openssl → ℕ → Str → Tls → Option (ℕ × Tls)
write_until_failure lib zero buf t = none
write_until_failure lib (suc fuel) buf t =
    let more = write_until_failure lib fuel buf (step (write buf) t) in
    elim (lib.write t.steps) [
      | written ↦ more
      | write_again ↦ more
      | write_failed ↦ some (rc_https_send_error, step (write buf) t)
    ]

-- Once `err` is SSL_ERROR_WANT_WRITE, this is what the loop does.
send_loop-until_failure :
    (lib : Openssl) (fuel : ℕ) (buf : Str) (t : Tls)
    → send_loop lib fuel true buf t ≡ write_until_failure lib fuel buf t
unfolding send_loop write_until_failure
send_loop-until_failure lib zero buf t = refl
send_loop-until_failure lib (suc fuel) buf t =
    ground (arith, send_loop-until_failure lib fuel buf (step (write buf) t))

write_until_failure-fails :
    (lib : Openssl) (fuel : ℕ) (buf : Str) (t t' : Tls)
    → write_until_failure lib fuel buf t ≢ some (0, t')
unfolding write_until_failure
write_until_failure-fails lib zero buf t t' h = ground arith
write_until_failure-fails lib (suc fuel) buf t t' h =
    ground (arith, write_until_failure-fails lib fuel buf (step (write buf) t) t')

send_loop-first :
    (lib : Openssl) (fuel : ℕ) (buf : Str) (t : Tls)
    → lib.write t.steps ≡ write_again
    → send_loop lib fuel false buf t ≡ write_until_failure lib fuel buf t
unfolding send_loop write_until_failure
send_loop-first lib zero buf t first = refl
send_loop-first lib (suc fuel) buf t first =
    ground (arith, send_loop-until_failure lib fuel buf (step (write buf) t))

-- With OpenSSL, a request whose first write has to be repeated is written again and again, also after the
-- library took it, until the library reports an error, and is never sent with success.
pub ssl_send-want_write :
    (net : Net) (lib : Openssl) (fuel : ℕ) (c : Conn) (buf : Str) (t t' : Tls)
    → c.ssl_enabled ≡ true
    → lib.write t.steps ≡ write_again
    → (Openssl.ssl_send net lib fuel c buf t ≡ write_until_failure lib fuel buf t)
      × (Openssl.ssl_send net lib fuel c buf t ≢ some (0, t'))
unfolding Openssl.ssl_send
ssl_send-want_write net lib fuel c buf t t' on first =
    let same : Openssl.ssl_send net lib fuel c buf t ≡ write_until_failure lib fuel buf t =
      rw on (send_loop-first lib fuel buf t first) in
    (same, rw same (write_until_failure-fails lib fuel buf t t'))

write_loop-ends :
    (answer : List Step → Written) (patience : ℕ)
    → ((steps : List Step) → patience ≤ length steps → answer steps ≢ write_again)
    → (fuel : ℕ) (buf : Str) (t : Tls) → patience - length t.steps < fuel
    → Returns
        (λ r. (r.0 ≡ 0) ⊎ (r.0 ≡ rc_https_send_error))
        (write_loop answer rc_https_send_error fuel buf t)
unfolding write_loop
write_loop-ends answer patience settles zero buf t enough = absurd (omega arith)
write_loop-ends answer patience settles (suc fuel) buf t enough =
    let t₁ = step (write buf) t in
    ground (arith, settles t.steps, write_loop-ends answer patience settles fuel buf t₁)
