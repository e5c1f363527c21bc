-- ===== src/Http.antt =====
-- The HTTP client (src/http.c, include/http.h) over the transport of the environment.
mod Response
pub mod Laws
unfoldable pub use Response.{
  http_response_parse_body, http_response_parse_status, c_string, scan_int4, is_space, skip_space,
  scan_digits, negate,
}
use inadyn.Prelude.{
  ℕ, Bool, true, false, ◌&&◌, ◌||◌, List, [], ◌∷◌, ◌==◌, if◌then◌else◌, leb, ltb, length, take,
}
use inadyn.Prelude.Text.{Str}
use inadyn.Prelude.Int.{ℤ, pos, negsuc, pos_part}
use inadyn.Error.{rc_ok, rc_http_object_not_initialized, rc_ddns_rsp_auth_fail}
use inadyn.Error.{rc_ddns_rsp_retry_later, rc_ddns_rsp_notok}
use inadyn.World.{Env, World, opened, sent, received, closed, emit}

abbrev pub http_default_timeout : ℕ
http_default_timeout = 10000

-- `http_t`: the fields of its `tcp_sock_t` that http.c sets, and its own. `ssl_enabled` is an int
-- that other code sets to -1, 0, 1 and 3.
pub record Client : Type 0 where
  pub remote_host : Str
  pub port : ℕ
  pub timeout : ℕ
  pub ssl_enabled : ℤ
  pub initialized : Bool

-- `http_trans_t`. A negative `req_len` is a failed request.
pub record Trans : Type 0 where
  pub req : Str
  pub req_len : ℤ
  pub rsp : Str
  pub rsp_len : ℕ
  pub max_rsp_len : ℕ
  pub rsp_body : Str
  pub status : ℤ

-- memset (&trans, 0, sizeof (trans))
abbrev pub zero_trans : Trans
zero_trans = record {
  req = [];
  req_len = pos 0;
  rsp = [];
  rsp_len = 0;
  max_rsp_len = 0;
  rsp_body = [];
  status = pos 0;
}

abbrev pub http_set_remote_timeout : ℕ → Client → Client
http_set_remote_timeout timeout client = record client { timeout = timeout }

unfoldable pub local_set_params : Client → Client
local_set_params client =
    if client.timeout == 0 then http_set_remote_timeout http_default_timeout client else client

unfoldable pub http_exit : Env → Client → World → ℕ × Client × World
http_exit env client w =
    if client.initialized
    then (env.ssl_close w.history, record client { initialized = false }, emit closed w)
    else (0, client, w)

-- `force` is the address family to insist on.
unfoldable pub http_init : Env → Client → ℕ → World → ℕ × Client × World
unfolding local_set_params http_exit
http_init env client₀ force w =
    let client = local_set_params client₀ in
    let rc = env.ssl_open w.history in
    let w' = emit (opened client.remote_host client.port client.ssl_enabled force) w in
    if rc == rc_ok
    then (0, record client { initialized = true }, w')
    else (let (_, client', w'') = http_exit env client w' in (rc, client', w''))

-- What both ends of http_transaction do to `trans` once the bytes in `rsp` are known.
abbrev parsed : Str → ℕ → Trans → Trans
parsed rsp rsp_len trans = record trans {
  rsp = rsp;
  rsp_len = rsp_len;
  rsp_body = http_response_parse_body rsp;
  status = http_response_parse_status rsp;
}

-- A failed send leaves an empty response; a failed receive leaves what had come.
unfoldable pub http_transaction : Env → Client → Trans → World → ℕ × Trans × World
http_transaction env client trans w =
    if client.initialized
    then (let rc = env.ssl_send w.history in
        let w' = emit (sent (take (pos_part trans.req_len) trans.req)) w in
        if rc == rc_ok
        then (let (rc', bytes) = env.ssl_recv w'.history in
            let stored = take trans.max_rsp_len bytes in
            (
              rc',
              parsed (c_string stored) (length stored) trans,
              emit (received trans.max_rsp_len) w',
            ))
        else (rc, parsed [] 0 trans, w'))
    else (rc_http_object_not_initialized, trans, w)

-- The test of a status between two bounds, of which the lower is not negative.
abbrev status_between : ℕ → ℕ → ℤ → Bool
status_between lo hi (pos n) = leb lo n && ltb n hi
status_between lo hi (negsuc n) = false

abbrev pub status_is : ℕ → ℤ → Bool
status_is k (pos n) = n == k
status_is k (negsuc n) = false

unfoldable pub http_status_valid : ℤ → ℕ
http_status_valid status =
    if status_is 200 status
    then 0
    else if status_is 401 status || status_is 403 status
    then rc_ddns_rsp_auth_fail
    else if status_between 500 600 status
    then rc_ddns_rsp_retry_later
    else rc_ddns_rsp_notok
