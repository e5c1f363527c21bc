-- ===== src/Tcp/Init.antt =====
-- Laws of `tcp_init` and `tcp_exit` (src/tcp.c): which descriptors are open, and what a result of 0
-- means.
use inadyn.Prelude.{
  has, ℕ, ◌≡◌, ◌≢◌, inl, inr, refl, false, not, ◌||◌, some, none, List, [], ◌∷◌, ◌++◌, ◌==◌, arith,
  ==_refl, Option, Option-cases, Bool-cases, if◌then◌else◌,
}
use inadyn.Prelude.Text.{Str}
use inadyn.Tcp.Defs.{
  Sock, Net, Kernel, Address, call, created, resolved, close, tcp_exit, tcp_set_port, set_params,
  check_progress, connect_to, try_addresses, connect_host, forced_family, init_with, tcp_init_auto,
  tcp_init,
}

-- The descriptor that an initialised socket keeps.
abbrev owned : Sock → List ℕ
owned tcp = if tcp.initialized then elim tcp.socket [ none ↦ [] | some fd ↦ fd ∷ [] ] else []

-- Of the open descriptors, this one's is the first, and `others` are the rest.
abbrev pub Holds : List ℕ → Sock → Kernel → Type 0
Holds others tcp k = k.descriptors ≡ owned tcp ++ others

-- A socket has a descriptor exactly when it is marked as initialised.
abbrev pub IsConsistent : Sock → Type 0
IsConsistent tcp = tcp.initialized ≡ has tcp.socket

connect_to-descriptors :
    (net : Net) (fd : ℕ) (k : Kernel) → (connect_to net fd k).1.descriptors ≡ k.descriptors
unfolding connect_to check_progress
connect_to-descriptors net fd k = ground arith

abbrev opened : Option ℕ → List ℕ → List ℕ
opened none ds = ds
opened (some fd) ds = fd ∷ ds

try_addresses-descriptors :
    (net : Net) (ais : List Address) (k : Kernel)
    → let (_, sd, k') = try_addresses net ais k in k'.descriptors ≡ opened sd k.descriptors
unfolding try_addresses
try_addresses-descriptors net [] k = refl
try_addresses-descriptors net (ai ∷ rest) k = elim (Option-cases (net.new_socket k.calls)) [
  | inl e ↦ ground arith
  | inr (sd, e) ↦
      let k₁ = record (call (created ai) k) { descriptors = sd ∷ k.descriptors } in
      let k₂ = (connect_to net sd k₁).1 in
      ground (
        arith,
        e,
        connect_to-descriptors net sd k₁,
        ==_refl sd,
        try_addresses-descriptors net rest (close sd k₂),
      )
]

tcp_exit-Holds :
    (others : List ℕ) (tcp : Sock) (k : Kernel)
    → Holds others tcp k
    → let (rc, tcp', k') = tcp_exit tcp k in (tcp'.initialized ≡ false) × (k'.descriptors ≡ others)
unfolding tcp_exit
tcp_exit-Holds others tcp k h = elim (Option-cases tcp.socket) [
  | inl e ↦ ground arith
  | inr (fd, e) ↦ ground (arith, ==_refl fd)
]

connect_host-Holds :
    (net : Net) (force : ℕ) (others : List ℕ) (tcp : Sock) (k : Kernel)
    → tcp.initialized ≡ false
    → k.descriptors ≡ others
    → let (rc, tcp', k') = connect_host net force tcp k in Holds others tcp' k'
unfolding connect_host
connect_host-Holds net force others tcp k closed h = elim (Option-cases tcp.remote_host) [
  | inl e ↦ ground arith
  | inr (host, e) ↦ elim (Option-cases (net.getaddrinfo k.calls)) [
    | inl e' ↦ ground arith
    | inr ([], e') ↦ ground arith
    | inr (ai ∷ rest, e') ↦
        let k₁ = call (resolved host tcp.port (forced_family force)) k in
        let r = try_addresses net (ai ∷ rest) k₁ in
        let d = try_addresses-descriptors net (ai ∷ rest) k₁ in
        elim (Option-cases r.1) [ inl o ↦ ground arith | inr (fd, o) ↦ ground (arith, o, d) ]
  ]
]

-- A result of 0 goes with a socket, another one with none.
try_addresses-has :
    (net : Net) (ais : List Address) (k : Kernel)
    → let (rc, sd, k') = try_addresses net ais k in (rc == 0) ≡ has sd
unfolding try_addresses
try_addresses-has net [] k = refl
try_addresses-has net (ai ∷ rest) k = elim (Option-cases (net.new_socket k.calls)) [
  | inl e ↦ ground arith
  | inr (sd, e) ↦
      let k₁ = record (call (created ai) k) { descriptors = sd ∷ k.descriptors } in
      ground (arith, e, try_addresses-has net rest (close sd (connect_to net sd k₁).1))
]

-- What becomes of a closed socket: it is connected after a result of 0, if there is a host, and
-- after no other.
pub record Ends (host : Option Str) (rc : ℕ) (tcp : Sock) : Type 0 where
  pub consistent : IsConsistent tcp
  pub result : (rc == 0) ≡ (tcp.initialized || not (has host))
  pub same_host : tcp.remote_host ≡ host

connect_host-Ends :
    (net : Net) (force : ℕ) (tcp : Sock) (k : Kernel)
    → tcp.initialized ≡ false
    → tcp.socket ≡ none
    → let (rc, tcp', k') = connect_host net force tcp k in Ends tcp.remote_host rc tcp'
unfolding connect_host
connect_host-Ends net force tcp k closed empty = elim (Option-cases tcp.remote_host) [
  | inl e ↦ ground arith
  | inr (host, e) ↦ elim (Option-cases (net.getaddrinfo k.calls)) [
    | inl e' ↦ ground arith
    | inr ([], e') ↦ ground arith
    | inr (ai ∷ rest, e') ↦
        let k₁ = call (resolved host tcp.port (forced_family force)) k in
        let r = try_addresses net (ai ∷ rest) k₁ in
        let d = try_addresses-has net (ai ∷ rest) k₁ in
        elim (Option-cases r.1) [
          | inl o ↦ ground (arith, o, d)
          | inr (fd, o) ↦ ground (arith, o, d)
        ]
  ]
]

-- How tcp_init ends for a closed socket, where `others` were open before.
pub record Inits (others : List ℕ) (host : Option Str) (r : ℕ × Sock × Kernel) : Type 0 where
  pub ends : Ends host r.0 r.1
  pub holds : Holds others r.1 r.2

abbrev Fallback : Type 0
Fallback = Sock → Kernel → ℕ × Sock × Kernel

-- What a fallback has to promise.
InitsAfter : Fallback → Type 0
InitsAfter fallback =
    (tcp : Sock) (k : Kernel)
    → tcp.initialized ≡ false
    → tcp.socket ≡ none
    → tcp.remote_host ≢ none
    → Inits k.descriptors tcp.remote_host (fallback tcp k)

set_params-port : (tcp : Sock) → set_params tcp ≡ record tcp { port = (set_params tcp).port }
unfolding set_params tcp_set_port
set_params-port tcp = ground arith

init_with-Inits :
    (net : Net) (fallback : Fallback) (force : ℕ) (tcp : Sock) (k : Kernel)
    → ((force == 0) ≡ false → InitsAfter fallback)
    → tcp.initialized ≡ false
    → tcp.socket ≡ none
    → Inits k.descriptors tcp.remote_host (init_with net fallback force tcp k)
unfolding init_with InitsAfter tcp_exit
init_with-Inits net fallback force tcp k promise closed empty =
    let tcp₀ = set_params tcp in
    let p = set_params-port tcp in
    let r = connect_host net force tcp₀ k in
    let e = connect_host-Ends net force tcp₀ k (ground (arith, p)) (ground (arith, p)) in
    let h = connect_host-Holds net force k.descriptors tcp₀ k (ground (arith, p)) refl in
    elim (Bool-cases (r.0 == 0)) [
      | inl ok ↦ ground (arith, p, e, h, ok)
      | inr bad ↦ elim (Bool-cases (force == 0)) [
        | inl auto ↦ ground (arith, p, e, h, bad)
        | inr forced ↦
            let x =
              promise forced r.1 r.2 (ground (arith, e)) (ground (arith, e)) (ground (arith, e)) in
            ground (arith, p, e, h, bad, x)
      ]
    ]

tcp_init_auto-InitsAfter : (net : Net) → InitsAfter (tcp_init_auto net)
unfolding tcp_init_auto InitsAfter
tcp_init_auto-InitsAfter net tcp k closed empty host =
    init_with-Inits net (λ tcp' k'. (0, tcp', k')) 0 tcp k (λ h. ground arith) closed empty

-- Whatever the system answers and whichever family is forced, tcp_init of a closed socket returns 0
-- exactly when the socket is connected or there is no host to connect to; a socket has a descriptor
-- exactly when it is marked as initialised; and the descriptors that are open afterwards are those
-- from before and the one that the socket keeps. Nothing leaks on any path.
pub tcp_init-Inits :
    (net : Net) (force : ℕ) (tcp : Sock) (k : Kernel)
    → tcp.initialized ≡ false
    → tcp.socket ≡ none
    → Inits k.descriptors tcp.remote_host (tcp_init net force tcp k)
unfolding tcp_init
tcp_init-Inits net force tcp k closed empty =
    init_with-Inits net (tcp_init_auto net) force tcp k (λ h. tcp_init_auto-InitsAfter net) closed
      empty

-- Connecting and closing again leaves the open descriptors as they were, and the socket closed.
pub tcp_exit-tcp_init :
    (net : Net) (force : ℕ) (tcp : Sock) (k : Kernel)
    → tcp.initialized ≡ false
    → tcp.socket ≡ none
    → let (rc, tcp₁, k₁) = tcp_init net force tcp k in
      let (_, tcp₂, k₂) = tcp_exit tcp₁ k₁ in
      (tcp₂.initialized ≡ false) × (k₂.descriptors ≡ k.descriptors)
tcp_exit-tcp_init net force tcp k closed empty =
    let r = tcp_init net force tcp k in
    tcp_exit-Holds k.descriptors r.1 r.2 (tcp_init-Inits net force tcp k closed empty).holds
