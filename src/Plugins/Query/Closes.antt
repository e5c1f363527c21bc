-- ===== src/Plugins/Query/Closes.antt =====
-- Whether the queries of a setup close the connections that they open.
use inadyn.Prelude.{ℕ, suc, ◌-◌, ◌≡◌, ◌&&◌, not, Bool, Option, [], ◌∷◌, ◌==◌, arith, if◌then◌else◌}
use inadyn.Prelude.Text.{Str}
use inadyn.Prelude.Int.{ℤ}
use inadyn.Error.{rc_ok}
use inadyn.World.{
  Env, World, History, Event, opened, sent, received, closed, asked_time, drew, slept, signalled,
  wrote, read, looked_up, executed, piped, queried,
}
use inadyn.Http.{http_init, http_exit, http_transaction}
use inadyn.Ddns.State.{Info, ddns_get_tcp_force}
use inadyn.Json.{Token}
use inadyn.Main.Serve.{ddns_http_response_buffer_size}
use inadyn.Plugins.Query.{query, query_client, query_trans, extract}

abbrev after_event : Env → Event → History → ℕ → ℕ
after_event env (opened host port ssl force) h n = if env.ssl_open h == rc_ok then suc n else n
after_event env (sent text) h n = n
after_event env (received room) h n = n
after_event env closed h n = n - 1
after_event env asked_time h n = n
after_event env drew h n = n
after_event env (slept s) h n = n
after_event env signalled h n = n
after_event env (wrote path text) h n = n
after_event env (read path) h n = n
after_event env (looked_up name) h n = n
after_event env (executed a b c d e) h n = n
after_event env (piped command) h n = n
after_event env (queried ifname) h n = n

-- How many connections are open after a history.
unfoldable pub still_open : Env → History → ℕ
still_open env [] = 0
still_open env (e ∷ h) = after_event env e h (still_open env h)

-- A query leaves as many connections open as there were, on every path.
pub query-closes :
    (env : Env) (force : ℕ) (info : Info) (req : Str) (req_len : ℕ) (rsp : Str) (room : ℕ)
    (w : World)
    → still_open env (query env force info req req_len rsp room w).2.history
      ≡ still_open env w.history
unfolding query still_open http_init http_exit http_transaction
query-closes env force info req req_len rsp room w = ground arith

-- Whether a query by `extract` opens its connection, and the transfer over it fails.
unfoldable pub transfer_fails : Env → Info → Str → ℕ → World → Bool
unfolding query_client
transfer_fails env info req req_len w =
    let (rc, client, w₁) = http_init env (query_client info) (ddns_get_tcp_force info) w in
    let trans₀ = query_trans req req_len [] ddns_http_response_buffer_size in
    rc == rc_ok && not ((http_transaction env client trans₀ w₁).0 == rc_ok)

-- A query by `extract` leaves one connection more open exactly when the transfer over it fails.
pub extract-closes :
    (check : ℤ → ℕ) (search : Str → Option Token × Bool) (size : ℕ) (env : Env) (info : Info)
    (req : Str) (req_len : ℕ) (dest : Str) (w : World)
    → still_open env (extract check search size env info req req_len dest w).world.history ≡ (
        if transfer_fails env info req req_len w
        then suc (still_open env w.history)
        else still_open env w.history)
unfolding extract transfer_fails still_open http_init http_exit http_transaction
extract-closes check search size env info req req_len dest w = ground arith
