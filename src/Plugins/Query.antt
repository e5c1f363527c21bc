-- ===== src/Plugins/Query.antt =====
-- A query that a plugin's setup makes of its provider before the update, over a client of its own
-- (the same code in several files of plugins).
pub mod Closes
use inadyn.Prelude.{
  ℕ, zero, suc, ◌+◌, ◌-◌, Bool, true, false, Option, none, some, List, [], ◌∷◌, ◌++◌, ◌==◌, leb,
  if◌then◌else◌, length, drop, take, replicate,
}
use inadyn.Prelude.Text.{Str}
use inadyn.Prelude.Int.{ℤ, pos}
use inadyn.Error.{rc_ok, rc_ddns_rsp_nohost, rc_buffer_overflow}
use inadyn.World.{Env, World}
use inadyn.Http.{Client, Trans, zero_trans, http_init, http_exit, http_transaction, c_string}
use inadyn.Tcp.{tcp_default_timeout}
use inadyn.Ddns.State.{Info, ddns_get_tcp_force, Ready}
use inadyn.Ddns.Setup.{http_set_port}
use inadyn.Ddns.Send.{bool_int}
use inadyn.Json.{Token, is_string, jsoneq}
use inadyn.Main.Serve.{ddns_http_response_buffer_size}

-- http_construct, then the provider's server; a proxy is not looked at.
unfoldable pub query_client : Info → Client
unfolding http_set_port
query_client info =
    let constructed : Client = record {
      remote_host = [];
      port = 0;
      timeout = tcp_default_timeout;
      ssl_enabled = pos 0;
      initialized = false;
    } in
    let client = http_set_port info.server_name.port constructed in
    record client { remote_host = info.server_name.name; ssl_enabled = bool_int info.ssl_enabled }

-- The transaction as the setups set it up: `rsp` is the buffer for the response, of `room` bytes.
abbrev pub query_trans : Str → ℕ → Str → ℕ → Trans
query_trans req req_len rsp room = record zero_trans {
  req = req;
  req_len = pos req_len;
  rsp = rsp;
  max_rsp_len = room - 1;
}

-- Open, transfer, and close whatever came of the transfer. After a failed open nothing is left to
-- close, and the buffer for the response is as it was.
unfoldable pub query : Env → ℕ → Info → Str → ℕ → Str → ℕ → World → ℕ × Trans × World
unfolding query_client
query env force info req req_len rsp room w =
    let (rc, client, w₁) = http_init env (query_client info) force w in
    if rc == rc_ok
    then (let (rc', trans, w₂) =
          http_transaction env client (query_trans req req_len rsp room) w₁ in
        let (_, _, w₃) = http_exit env client w₂ in (rc', trans, w₃))
    else (rc, query_trans req req_len rsp room, w₁)

-- `json_copy_value`: a text that fits the buffer with its terminating NUL.
unfoldable pub json_copy_value : ℕ → Str → Token → Option Str
json_copy_value dest_size json token =
    if is_string token.type
    then if leb (token.stop - token.start + 1) dest_size
      then some (take (token.stop - token.start) (drop token.start json))
      else none
    else none

-- The token behind the first one that is the key, among the tokens of a list.
unfoldable pub value_of : Str → Str → List Token → Option Token
value_of json key [] = none
value_of json key (t ∷ []) = none
value_of json key (t ∷ v ∷ rest) =
    let later = value_of json key (v ∷ rest) in if jsoneq json t key then some v else later

-- What `json_extract` leaves: its code, the buffer for the value, and the world.
pub record Extracted : Type 0 where
  pub rc : ℕ
  pub dest : Str
  pub world : World

-- `json_extract` with the two functions that differ between the plugins: the filter for the status, and
-- the search for the value, which may read out of bounds. The client is only closed after a transfer
-- that succeeded.
unfoldable pub extract :
    (ℤ → ℕ) → (Str → Option Token × Bool) → ℕ → Env → Info → Str → ℕ → Str → World → Extracted
unfolding query_client
extract check search size env info req req_len dest w =
    let (rc, client, w₁) = http_init env (query_client info) (ddns_get_tcp_force info) w in
    let trans₀ = query_trans req req_len [] ddns_http_response_buffer_size in
    let (rc', trans, w₂) = http_transaction env client trans₀ w₁ in
    let (_, _, w₃) = http_exit env client w₂ in
    let (found, overrun) = search trans.rsp_body in
    let w₄ = (if overrun then record w₃ { fault = true } else w₃) in
    if rc == rc_ok
    then if rc' == rc_ok
      then if check trans.status == rc_ok
        then elim found [
          | none ↦ record { rc = rc_ddns_rsp_nohost; dest = dest; world = w₄ }
          | some token ↦ elim (json_copy_value size trans.rsp_body token) [
            | none ↦ record { rc = rc_buffer_overflow; dest = dest; world = w₄ }
            | some value ↦ record { rc = rc_ok; dest = value; world = w₄ }
          ]
        ]
        else record { rc = check trans.status; dest = dest; world = w₃ }
      else record { rc = rc'; dest = dest; world = w₂ }
    else record { rc = rc; dest = dest; world = w₁ }

-- A buffer in which a text replaces another: what stood behind its terminating NUL is still there.
abbrev pub overwrite : Str → Str → Str
overwrite text old = text ++ 0 ∷ drop (suc (length text)) old

-- Two identifiers of at most 32 bytes, as the structure that a setup leaves has them.
abbrev pub max_id : ℕ
max_id = 33

abbrev pub pad : ℕ → Str → Str
pad size s = take size (s ++ replicate size 0)

-- A structure of two buffers of `max_id` bytes, and the texts in them.
unfoldable pub pack_ids : Str → Str → Str
pack_ids zone_id hostname_id = pad max_id zone_id ++ pad max_id hostname_id

unfoldable pub zone_id : Str → Str
zone_id ids = c_string (take max_id ids)

unfoldable pub hostname_id : Str → Str
hostname_id ids = c_string (drop max_id ids)

-- A setup that ends: the buffer for the request, the name of the alias and the data of the provider.
abbrev pub ready : ℕ → Str → Str → Str → Option Str → World → Ready
ready rc request_buf work_buf name data' w = record {
  rc = rc;
  request_buf = request_buf;
  work_buf = work_buf;
  provider_data = data';
  name = name;
  world = w;
}
