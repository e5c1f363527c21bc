-- ===== src/Tcp/Recv.antt =====
-- Laws of `tcp_recv` and `tcp_send` (src/tcp.c): that they return, and what is in the buffer.
use inadyn.Prelude.{
  ◌==◌, ◌&&◌, false, ltb, Returns, ℕ, zero, suc, ◌+◌, ◌-◌, ◌≤◌, ◌<◌, ◌≡◌, ◌≢◌, true, List, [], ◌∷◌,
  ◌++◌, arith, length, length-append, length-take-le, take, leb, Option-cases, if◌then◌else◌, refl,
  ℕ-cases, ◌⊎◌, inl, inr,
}
use inadyn.Prelude.Text.{Str}
use inadyn.Error.{rc_tcp_send_error}
use inadyn.Tcp.Defs.{
  Sock, Net, Kernel, Got, Call, received, sent, call, bytes, Receiving, receiving_again,
  receiving_failed, sending_again, tcp_default_read_chunk_size, recv_loop, tcp_recv, send_all,
  tcp_send,
}

-- What a call for `len` bytes leaves: no more than that, and after a result of 0 something.
pub record Received (len : ℕ) (g : Got) : Type 0 where
  pub fits : length g.text ≤ len
  pub nonempty : (g.rc == 0 && ltb 0 len && length g.text == 0) ≡ false

-- The answers of recv.
data IsAnswer : Receiving → Type 0 where
  again : (r : Receiving) → r ≡ receiving_again → IsAnswer r
  failed : (r : Receiving) → r ≡ receiving_failed → IsAnswer r
  ended : (r : Receiving) → r ≡ bytes [] → IsAnswer r
  got : (r : Receiving) (c : ℕ) (s : Str) → r ≡ bytes (c ∷ s) → IsAnswer r

Receiving-IsAnswer : (r : Receiving) → IsAnswer r
Receiving-IsAnswer receiving_again = again receiving_again refl
Receiving-IsAnswer receiving_failed = failed receiving_failed refl
Receiving-IsAnswer (bytes []) = ended (bytes []) refl
Receiving-IsAnswer (bytes (c ∷ s)) = got (bytes (c ∷ s)) c s refl

-- The size of the next chunk.
abbrev chunk_size : ℕ → ℕ
chunk_size remaining =
    if leb remaining tcp_default_read_chunk_size then remaining else tcp_default_read_chunk_size

length-take-pos : (n c : ℕ) (s : Str) → 0 < n → 0 < length (take n (c ∷ s))
length-take-pos zero c s h = absurd (omega arith)
length-take-pos (suc n) c s h = omega arith

chunk_size_bounds :
    (remaining : ℕ)
    → 0 < remaining
    → (0 < chunk_size remaining) × (chunk_size remaining ≤ remaining)
chunk_size_bounds remaining h = ground arith

-- A chunk is not empty, and fits what remains.
chunk_lem :
    (remaining c : ℕ) (s total : Str)
    → 0 < remaining
    → let got = length (take (chunk_size remaining) (c ∷ s)) in
      (0 < got)
      × (got ≤ remaining)
      × (length (total ++ take (chunk_size remaining) (c ∷ s)) ≡ length total + got)
chunk_lem remaining c s total h =
    let n = chunk_size remaining in
    let b = chunk_size_bounds remaining h in
    (
      length-take-pos n c s b.0,
      omega (arith, length-take-le n (c ∷ s), b.1),
      length-append total (take n (c ∷ s)),
    )

-- From some number of system calls on, the answer is never EAGAIN.
module _ (net : Net) (patience : ℕ)
    (settles : (calls : List Call)
      → patience ≤ length calls
      → net.recv calls ≢ receiving_again) where
  recv_loop-Received :
      (fuel fd len remaining : ℕ) (total : Str) (k : Kernel)
      → remaining + (patience - length k.calls) < fuel
      → length total + remaining ≡ len
      → Returns (Received len) (recv_loop net fuel fd remaining total k)
  unfolding recv_loop
  recv_loop-Received zero fd len remaining total k enough sum = absurd (omega arith)
  recv_loop-Received (suc fuel) fd len remaining total k enough sum =
      let k₁ = call (received fd (chunk_size remaining)) k in
      elim (ℕ-cases remaining 0) [
        | inl z ↦ ground arith
        | inr nz ↦ elim (Receiving-IsAnswer (net.recv k.calls)) [
          | again r e ↦
              ground (arith, e, settles k.calls, recv_loop-Received fuel fd len remaining total k₁)
          | failed r e ↦ ground (arith, e)
          | ended r e ↦ ground (arith, e)
          | got r c s e ↦
              let t = take (chunk_size remaining) (c ∷ s) in
              let l = chunk_lem remaining c s total (omega arith) in
              ground (
                arith,
                e,
                recv_loop-Received fuel fd len (remaining - length t) (total ++ t) k₁
                    (omega (arith, l)) (omega (arith, l)),
              )
        ]
      ]

-- If from some call on recv never answers EAGAIN, tcp_recv of an open socket returns after at most one
-- round for each byte, one for each early call and one more; it never stores more than the `len` bytes of
-- the buffer, and a result of 0 comes with at least one byte where any was asked for.
pub tcp_recv-Received :
    (net : Net) (patience : ℕ)
    → ((calls : List Call) → patience ≤ length calls → net.recv calls ≢ receiving_again)
    → (fuel len : ℕ) (tcp : Sock) (k : Kernel) → len + patience < fuel
    → tcp.initialized ≡ true
    → Returns (Received len) (tcp_recv net fuel tcp len k)
unfolding tcp_recv
tcp_recv-Received net patience settles fuel len tcp k enough h = elim (Option-cases tcp.socket) [
  | inl e ↦ ground arith
  | inr (fd, e) ↦ ground (arith, e, recv_loop-Received net patience settles fuel fd len len [] k)
]

-- The same for the loop of tcp_send, which ends after an answer that is not EAGAIN: 0 when the system
-- took the bytes, an error otherwise.
send_all-ends :
    (net : Net) (patience : ℕ)
    → ((calls : List Call) → patience ≤ length calls → net.send calls ≢ sending_again)
    → (fuel fd : ℕ) (buf : Str) (k : Kernel) → patience - length k.calls < fuel
    → Returns (λ r. (r.0 ≡ 0) ⊎ (r.0 ≡ rc_tcp_send_error)) (send_all net fuel fd buf k)
unfolding send_all
send_all-ends net patience settles zero fd buf k enough = absurd (omega arith)
send_all-ends net patience settles (suc fuel) fd buf k enough =
    let k₁ = call (sent fd buf) k in
    ground (arith, settles k.calls, send_all-ends net patience settles fuel fd buf k₁)

-- If from some call on send never answers EAGAIN, tcp_send of an open socket returns, with 0 or with
-- the error of sending.
pub tcp_send-ends :
    (net : Net) (patience : ℕ)
    → ((calls : List Call) → patience ≤ length calls → net.send calls ≢ sending_again)
    → (fuel : ℕ) (tcp : Sock) (buf : Str) (k : Kernel) → patience < fuel
    → tcp.initialized ≡ true
    → Returns (λ r. (r.0 ≡ 0) ⊎ (r.0 ≡ rc_tcp_send_error)) (tcp_send net fuel tcp buf k)
unfolding tcp_send
tcp_send-ends net patience settles fuel tcp buf k enough h = elim (Option-cases tcp.socket) [
  | inl e ↦ ground arith
  | inr (fd, e) ↦ ground (arith, e, send_all-ends net patience settles fuel fd buf k)
]
