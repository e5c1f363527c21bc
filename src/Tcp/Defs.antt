-- ===== src/Tcp/Defs.antt =====
-- The operations of src/tcp.c.
use inadyn.Prelude.{
  ℕ, zero, suc, ◌-◌, ◌/◌, ◌%◌, Bool, true, false, Option, none, some, List, [], ◌∷◌, ◌++◌, ◌==◌,
  leb, length, take, if◌then◌else◌,
}
use inadyn.Prelude.Text.{Str}
use inadyn.Error.{
  rc_ok, rc_tcp_bad_parameter, rc_tcp_invalid_remote_addr, rc_tcp_socket_create_error,
}
use inadyn.Error.{
  rc_tcp_connect_failed, rc_tcp_object_not_initialized, rc_tcp_send_error, rc_tcp_recv_error,
}
use inadyn.World.{Family, inet, inet6, unspec}

abbrev pub tcp_default_timeout : ℕ
tcp_default_timeout = 5000

abbrev pub tcp_default_read_chunk_size : ℕ
tcp_default_read_chunk_size = 100

abbrev pub http_default_port : ℕ
http_default_port = 80

abbrev pub tcp_socket_max_port : ℕ
tcp_socket_max_port = 65535

-- `tcp_sock_t`; a socket of -1 is `none`. The timeout is in milliseconds.
pub record Sock : Type 0 where
  pub remote_host : Option Str
  pub port : ℕ
  pub timeout : ℕ
  pub initialized : Bool
  pub socket : Option ℕ

-- The calls of the system, each with what it was given.
pub data Call : Type 0 where
  resolved : Str → ℕ → Family → Call
  created : Family → Call
  named connected polled : ℕ → Call
  sent : ℕ → Str → Call
  received : ℕ → ℕ → Call
  closed : ℕ → Call

-- An address that getaddrinfo found, by its family.
abbrev pub Address : Type 0
Address = Family

pub data Sending : Type 0 where
  sending_done sending_again sending_failed : Sending

-- What recv returns: bytes (none at the end of the stream), EAGAIN, or another error.
pub data Receiving : Type 0 where
  bytes : Str → Receiving
  receiving_again receiving_failed : Receiving

-- The answers, as functions of the calls before.
pub record Net : Type 0 where
  pub getaddrinfo : List Call → Option (List Address)
  pub new_socket : List Call → Option ℕ
  -- whether getnameinfo and connect succeed
  pub getnameinfo : List Call → Bool
  pub connect : List Call → Bool
  -- whether `errno` is EINPROGRESS after a connect that failed, and whether poll then reports
  -- a socket without an error
  pub in_progress : List Call → Bool
  pub poll : List Call → Bool
  pub send : List Call → Sending
  pub recv : List Call → Receiving

-- The calls so far, and the descriptors that are open.
pub record Kernel : Type 0 where
  pub calls : List Call
  pub descriptors : List ℕ

abbrev pub call : Call → Kernel → Kernel
call c k = record k { calls = c ∷ k.calls }

abbrev pub without : ℕ → List ℕ → List ℕ
without fd [] = []
without fd (x ∷ rest) = if x == fd then rest else x ∷ without fd rest

abbrev pub close : ℕ → Kernel → Kernel
close fd k = record { calls = closed fd ∷ k.calls; descriptors = without fd k.descriptors }

unfoldable pub tcp_construct : Sock → Sock
tcp_construct tcp = record {
  remote_host = none;
  port = 0;
  timeout = tcp_default_timeout;
  initialized = false;
  socket = none;
}

unfoldable pub tcp_exit : Sock → Kernel → ℕ × Sock × Kernel
tcp_exit tcp k =
    if tcp.initialized
    then elim tcp.socket [
      | none ↦ (0, record tcp { initialized = false }, k)
      | some fd ↦ (0, record tcp { initialized = false; socket = none }, close fd k)
    ]
    else (0, tcp, k)

unfoldable pub tcp_destruct : Sock → Kernel → ℕ × Sock × Kernel
unfolding tcp_exit
tcp_destruct tcp k = let (_, tcp', k') = tcp_exit tcp k in (0, tcp', k')

unfoldable pub tcp_set_port : ℕ → Sock → ℕ × Sock
tcp_set_port port tcp =
    if leb port tcp_socket_max_port
    then (0, record tcp { port = port })
    else (rc_tcp_bad_parameter, tcp)

unfoldable pub tcp_set_remote_name : Option Str → Sock → ℕ × Sock
tcp_set_remote_name name tcp = (0, record tcp { remote_host = name })

unfoldable pub tcp_set_remote_timeout : ℕ → Sock → ℕ × Sock
tcp_set_remote_timeout timeout tcp = (0, record tcp { timeout = timeout })

unfoldable pub set_params : Sock → Sock
unfolding tcp_set_port
set_params tcp = if tcp.port == 0 then (tcp_set_port http_default_port tcp).1 else tcp

-- Whether `check_error` is 0; `progress` tells whether `errno` is EINPROGRESS.
unfoldable pub check_progress : Net → ℕ → Bool → Kernel → Bool × Kernel
check_progress net fd progress k =
    if progress then (net.poll k.calls, call (polled fd) k) else (false, k)

-- Whether neither getnameinfo nor `connect (...) && check_error (...)` leads to `next`.
unfoldable pub connect_to : Net → ℕ → Kernel → Bool × Kernel
unfolding check_progress
connect_to net fd k =
    let k₁ = call (named fd) k in
    let k₂ = call (connected fd) k₁ in
    if net.getnameinfo k.calls
    then if net.connect k₁.calls
      then (true, k₂)
      else check_progress net fd (net.in_progress k₁.calls) k₂
    else (false, k₁)

-- `while (1)` over the addresses: a socket that does not connect is closed, and the next address
-- tried. The code enters it with at least one address.
unfoldable pub try_addresses : Net → List Address → Kernel → ℕ × Option ℕ × Kernel
try_addresses net [] k = (rc_tcp_connect_failed, none, k)
try_addresses net (ai ∷ rest) k =
    let k₁ = call (created ai) k in
    elim (net.new_socket k.calls) [
      | none ↦ (rc_tcp_socket_create_error, none, k₁)
      | some sd ↦
          (let (ok, k₂) = connect_to net sd (record k₁ { descriptors = sd ∷ k₁.descriptors }) in
            let later = try_addresses net rest (close sd k₂) in
            if ok then (0, some sd, k₂) else later)
    ]

-- The bits of `force`: TCP_FORCE_IPV4 is 1 and wins over TCP_FORCE_IPV6, which is 2.
unfoldable pub forced_family : ℕ → Family
forced_family force = if force % 2 == 1 then inet else if force / 2 % 2 == 1 then inet6 else unspec

-- `do ... while (0)`: with no host nothing is done, and that is no error.
unfoldable pub connect_host : Net → ℕ → Sock → Kernel → ℕ × Sock × Kernel
unfolding forced_family
connect_host net force tcp k = elim tcp.remote_host [
  | none ↦ (0, tcp, k)
  | some host ↦
      (let k₁ = call (resolved host tcp.port (forced_family force)) k in
        elim (net.getaddrinfo k.calls) [
          | none ↦ (rc_tcp_invalid_remote_addr, tcp, k₁)
          | some [] ↦ (rc_tcp_invalid_remote_addr, tcp, k₁)
          | some (ai ∷ rest) ↦
              (let (rc, sd, k₂) = try_addresses net (ai ∷ rest) k₁ in
                elim sd [
                  | none ↦ (rc, tcp, k₂)
                  | some fd ↦ (rc, record tcp { socket = some fd; initialized = true }, k₂)
                ])
        ])
]

-- tcp_init, with what is done after a failure of a family that was forced.
unfoldable pub init_with :
    Net → (Sock → Kernel → ℕ × Sock × Kernel) → ℕ → Sock → Kernel → ℕ × Sock × Kernel
unfolding set_params connect_host tcp_exit
init_with net fallback force tcp k =
    if tcp.initialized
    then (0, tcp, k)
    else (let (rc, tcp₁, k₁) = connect_host net force (set_params tcp) k in
        let (_, tcp₂, k₂) = tcp_exit tcp₁ k₁ in
        if rc == rc_ok
        then (0, tcp₁, k₁)
        else if force == 0
        then (rc, tcp₂, k₂)
        else fallback tcp₂ k₂)

-- With TCP_AUTO, which is 0, there is no fallback.
unfoldable pub tcp_init_auto : Net → Sock → Kernel → ℕ × Sock × Kernel
tcp_init_auto net tcp k = init_with net (λ tcp' k'. (0, tcp', k')) 0 tcp k

unfoldable pub tcp_init : Net → ℕ → Sock → Kernel → ℕ × Sock × Kernel
tcp_init net force tcp k = init_with net (tcp_init_auto net) force tcp k

-- The loop on EAGAIN has no bound of its own: `none` is fuel that ran out.
unfoldable pub send_all : Net → ℕ → ℕ → Str → Kernel → Option (ℕ × Kernel)
send_all net zero fd buf k = none
send_all net (suc fuel) fd buf k =
    let k₁ = call (sent fd buf) k in
    elim (net.send k.calls) [
      | sending_done ↦ some (0, k₁)
      | sending_again ↦ send_all net fuel fd buf k₁
      | sending_failed ↦ some (rc_tcp_send_error, k₁)
    ]

unfoldable pub tcp_send : Net → ℕ → Sock → Str → Kernel → Option (ℕ × Kernel)
unfolding send_all
tcp_send net fuel tcp buf k =
    if tcp.initialized
    then elim tcp.socket [
      | none ↦ some (rc_tcp_send_error, k)
      | some fd ↦ send_all net fuel fd buf k
    ]
    else some (rc_tcp_object_not_initialized, k)

-- What tcp_recv leaves: its return code, the bytes in the buffer, and their number in `recv_len`.
pub record Got : Type 0 where
  pub rc : ℕ
  pub text : Str
  pub kernel : Kernel

-- `while (remaining_bytes > 0)`, with what has come so far. A call asks for one chunk at most.
unfoldable pub recv_loop : Net → ℕ → ℕ → ℕ → Str → Kernel → Option Got
recv_loop net zero fd remaining total k = none
recv_loop net (suc fuel) fd remaining total k =
    let chunk =
      (if leb remaining tcp_default_read_chunk_size
        then remaining
        else tcp_default_read_chunk_size) in
    let k₁ = call (received fd chunk) k in
    if remaining == 0
    then some (record { rc = 0; text = total; kernel = k })
    else elim (net.recv k.calls) [
      | receiving_again ↦ recv_loop net fuel fd remaining total k₁
      | receiving_failed ↦ some (record { rc = rc_tcp_recv_error; text = total; kernel = k₁ })
      | bytes [] ↦ some (record {
        rc = if length total == 0 then rc_tcp_recv_error else 0;
        text = total;
        kernel = k₁;
      })
      | bytes (c ∷ s) ↦
          recv_loop net fuel fd (remaining - length (take chunk (c ∷ s)))
            (total ++ take chunk (c ∷ s)) k₁
    ]

unfoldable pub tcp_recv : Net → ℕ → Sock → ℕ → Kernel → Option Got
unfolding recv_loop
tcp_recv net fuel tcp len k =
    if tcp.initialized
    then elim tcp.socket [
      | none ↦ some (record { rc = rc_tcp_recv_error; text = []; kernel = k })
      | some fd ↦ recv_loop net fuel fd len [] k
    ]
    else some (record { rc = rc_tcp_object_not_initialized; text = []; kernel = k })
