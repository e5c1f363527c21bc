-- ===== src/Tls/Io.antt =====
-- What the three back ends share: the part of `http_t` (include/http.h) that they use, the calls of a
-- TLS library, and the two loops around its calls for sending and receiving.
use inadyn.Prelude.{
  ℕ, zero, suc, ◌-◌, Bool, Option, none, some, List, ◌∷◌, ◌++◌, ◌==◌, length, take, if◌then◌else◌,
}
use inadyn.Prelude.Text.{Str}
use inadyn.Tcp.{Sock, Kernel}

abbrev pub https_default_port : ℕ
https_default_port = 443

-- `http_t`: its socket, and whether its two pointers to objects of the library are set.
pub record Conn : Type 0 where
  pub sock : Sock
  pub ssl_enabled : Bool
  pub ssl : Bool
  pub ssl_ctx : Bool
  pub connected : Bool

-- The calls of the library that matter here, by what they are for.
pub data Step : Type 0 where
  make_context load_defaults make_session set_options set_name handshake get_certificate : Step
  load_file : Str → Step
  write : Str → Step
  read : ℕ → Step
  bye : Step
  global_init set_verify_function free_credentials global_deinit : Step

-- The calls so far, the objects of the library that are allocated, and the system below.
pub record Tls : Type 0 where
  pub steps : List Step
  pub live : ℕ
  pub kernel : Kernel

abbrev pub step : Step → Tls → Tls
step x t = record t { steps = x ∷ t.steps }

abbrev pub allocate : Tls → Tls
allocate t = record t { live = suc t.live }

abbrev pub release : Tls → Tls
release t = record t { live = t.live - 1 }

-- What a call for sending answers: that it took bytes, that it has to be repeated, or an error.
pub data Written : Type 0 where
  written write_again write_failed : Written

-- What a call for receiving answers: bytes, that it has to be repeated, the end, or an error.
pub data Reading : Type 0 where
  got : Str → Reading
  read_again read_ended read_failed : Reading

-- What ssl_recv leaves: its return code, the bytes in the buffer with their number in `recv_len`, and
-- the state.
pub record Fetched : Type 0 where
  pub rc : ℕ
  pub text : Str
  pub tls : Tls

-- The loop of ssl_recv: a call asks for what is left of the buffer, and the loop goes on after bytes
-- and after a request to repeat. `none` is fuel that ran out.
unfoldable pub read_loop : (List Step → Reading) → ℕ → ℕ → ℕ → Str → Tls → Option Fetched
read_loop answer error zero room text t = none
read_loop answer error (suc fuel) room text t =
    let t₁ = step (read room) t in
    let again = read_loop answer error fuel room text t₁ in
    elim (answer t.steps) [
      | read_again ↦ again
      | read_ended ↦ some (record { rc = 0; text = text; tls = t₁ })
      | read_failed ↦ some (record { rc = error; text = text; tls = t₁ })
      | got s ↦
          (let s' = take room s in
            let more = read_loop answer error fuel (room - length s') (text ++ s') t₁ in
            if length s' == 0 then some (record { rc = 0; text = text; tls = t₁ }) else more)
    ]

-- The loop of ssl_send in gnutls.c and mbedtls.c.
unfoldable pub write_loop : (List Step → Written) → ℕ → ℕ → Str → Tls → Option (ℕ × Tls)
write_loop answer error zero buf t = none
write_loop answer error (suc fuel) buf t =
    let t₁ = step (write buf) t in
    elim (answer t.steps) [
      | written ↦ some (0, t₁)
      | write_again ↦ write_loop answer error fuel buf t₁
      | write_failed ↦ some (error, t₁)
    ]
