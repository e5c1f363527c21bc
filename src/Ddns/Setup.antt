-- ===== src/Ddns/Setup.antt =====
-- What the daemon does before its loop (src/ddns.c): `init_context` and `get_encoded_user_passwd`.
use inadyn.Prelude.{ℕ, true, List, [], ◌∷◌, ◌++◌, leb, map, if◌then◌else◌}
use inadyn.Prelude.Text.{Str, codes, strlcpy}
use inadyn.Tcp.{tcp_socket_max_port}
use inadyn.Http.{Client}
use inadyn.Ddns.State.{Info, Ctx, Provider, ServerName, Creds}

-- A port out of range is refused, and the callers ignore that.
unfoldable pub http_set_port : ℕ → Client → Client
http_set_port port client =
    if leb port tcp_socket_max_port then record client { port = port } else client

abbrev pub http_set_remote_name : Str → Client → Client
http_set_remote_name name client = record client { remote_host = name }

abbrev set_server : ServerName → Client → Client
set_server server client = http_set_remote_name server.name (http_set_port server.port client)

-- With a proxy both clients connect to it, else each to its own server.
unfoldable pub init_info : Info → Info
unfolding http_set_port
init_info info = elim info.proxy_name.name [
  | [] ↦ record info {
    checkip = set_server info.checkip_name info.checkip;
    server = set_server info.server_name info.server;
  }
  | c ∷ s ↦ record info {
    checkip = set_server info.proxy_name info.checkip;
    server = set_server info.proxy_name info.server;
  }
]

-- `cached` is the number of iterations that a restart keeps.
unfoldable pub init_context : ℕ → Ctx → List Provider → Ctx × List Provider
unfolding init_info
init_context cached ctx ps = if ctx.initialized then (ctx, ps) else (
  record ctx { num_iterations = cached; initialized = true },
  map {A = Provider} (λ p. record p { info = init_info p.info }) ps,
)

-- The buffer for "username:password", four bytes for each three of the two fields and two more.
abbrev pub passwd_buflen : ℕ
passwd_buflen = 516

-- `encode` is base64_encode. The text is never empty, and the buffer that it is encoded into has the
-- size that the encoder asked for.
unfoldable pub encode_creds : (Str → Str) → Creds → Creds
encode_creds encode creds = record creds {
  encoded_password = encode (strlcpy passwd_buflen (creds.username ++ codes ":" ++ creds.password));
  encoded = true;
}

unfoldable pub get_encoded_user_passwd : (Str → Str) → List Provider → List Provider
unfolding encode_creds
get_encoded_user_passwd encode =
    map {A = Provider}
      (λ p. record p { info = record p.info { creds = encode_creds encode p.info.creds } })
