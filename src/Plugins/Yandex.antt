-- ===== src/Plugins/Yandex.antt =====
-- The provider pdd.yandex.ru (plugins/yandex.c).
mod Records
pub mod Stale
pub use Records.{
  Search, unknown, find_records, find_record_id, Field, absent, keyword, found, Progress, start,
}
unfoldable pub use Records.{get_tokens, success, on_value, on_token, scan_tokens, get_record_id}
use inadyn.Prelude.{
  ℕ, zero, suc, ◌+◌, false, Option, none, some, List, [], ◌∷◌, ◌++◌, ◌==◌, leb, if◌then◌else◌,
  length,
}
use inadyn.Prelude.Text.{Str, codes, format, strlcpy, print_nat}
use inadyn.Prelude.Int.{ℤ, pos, negsuc}
use inadyn.Error.{rc_ok, rc_ddns_rsp_notok, rc_ddns_invalid_option}
use inadyn.World.{Env, World}
use inadyn.Http.{Trans, http_status_valid}
use inadyn.Ddns.State.{Alias, Info, Ctx, System, Plugin, Ready, tcp_auto}
use inadyn.Ddns.Query.{crlf}
use inadyn.Json.{Jsmn}
use inadyn.Plugins.Common.{snprintf, checked}
use inadyn.Plugins.Query.{query, ready}
use inadyn.Plugins.Registry.{Entry, Registry}
use inadyn.Plugins.Table.{static_system, Registration, register, register_all, unregister_all}

abbrev headers : Str
headers =
    codes " HTTP/1.1"
    ++ crlf
    ++ codes "Host: %s"
    ++ crlf
    ++ codes "PddToken: %s"
    ++ crlf
    ++ codes "User-Agent: %s"
    ++ crlf

abbrev pub yandex_get_request : Str
yandex_get_request = codes "GET %s" ++ headers ++ crlf

-- A length is printed before it is put in.
abbrev pub yandex_post_request : Str
yandex_post_request =
    codes "POST %s"
    ++ headers
    ++ codes "Content-Length: %s"
    ++ crlf
    ++ codes "Content-Type: application/x-www-form-urlencoded"
    ++ crlf
    ++ crlf
    ++ codes "%s"

abbrev pub system : System
system =
    static_system (codes "default@pdd.yandex.ru") none false (codes "checkip.dyndns.com")
      (codes "/") (negsuc 0) (codes "pddimp.yandex.ru:443") (codes "/dynamic/update.php")

-- `struct yandex`: the identifier of the record (0 where it is negative, which no request sees), the
-- length that the text had before it was cut to its buffer, and the text.
abbrev pub pack : ℕ → ℕ → Str → Str
pack record_id len url = record_id ∷ len ∷ url

-- The structure for an identifier that is not negative.
unfoldable pub prepare : Info → Alias → ℕ → Str
prepare info alias zero =
    let text =
      format (codes "domain=%s&type=A&subdomain=%s&content=%s")
        (info.creds.username ∷ alias.name ∷ alias.address ∷ []) in
    pack 0 (length text) (strlcpy 512 text)
prepare info alias (suc n) =
    let text =
      format (codes "domain=%s&record_id=%s&subdomain=%s&content=%s")
        (info.creds.username ∷ print_nat (suc n) ∷ alias.name ∷ alias.address ∷ []) in
    pack (suc n) (length text) (strlcpy 512 text)

-- What follows the query in `setup`.
unfoldable pub after_query : Jsmn → Info → Alias → Str → Str → ℕ × Trans × World → Ready
unfolding prepare
after_query jsmn info alias url buf (rc, trans, w) =
    let done : ℕ → Str → Ready = λ rc' y. ready rc' buf trans.rsp alias.name (some y) w in
    if rc == rc_ok
    then if http_status_valid trans.status == rc_ok
      then if success jsmn trans.rsp_body
        then elim (get_record_id jsmn trans.rsp_body alias.name) [
          | negsuc n ↦ done rc_ddns_invalid_option (pack 0 0 url)
          | pos n ↦ done 0 (prepare info alias n)
        ]
        else done rc_ddns_invalid_option (pack 0 0 url)
      else done (http_status_valid trans.status) (pack 0 0 url)
    else done rc (pack 0 0 url)

-- The request is composed after the connection is there.
unfoldable pub setup : Jsmn → Env → Ctx → Info → Alias → World → Ready
setup jsmn env ctx info alias w =
    let url =
      strlcpy 512 (format (codes "/api2/admin/dns/list?domain=%s") (info.creds.username ∷ [])) in
    let req =
      format yandex_get_request
        (url ∷ info.server_name.name ∷ info.creds.password ∷ info.user_agent ∷ []) in
    let buf = strlcpy ctx.request_buflen req in
    let answer = query env tcp_auto info buf (length req) ctx.work_buf ctx.work_buflen w in
    if env.ssl_open w.history == rc_ok
    then after_query jsmn info alias url buf answer
    else ready answer.0 ctx.request_buf answer.1.rsp alias.name (some (pack 0 0 [])) answer.2

-- The request from the structure, if there is one.
unfoldable pub request : Ctx → Info → Alias → ℤ × Str
request ctx info alias = elim info.provider_data [
  | none ↦ (negsuc 0, ctx.request_buf)
  | some [] ↦ (negsuc 0, ctx.request_buf)
  | some (record_id ∷ []) ↦ (negsuc 0, ctx.request_buf)
  | some (record_id ∷ len ∷ url) ↦
      (let path =
          (if leb 1 record_id then codes "/api2/admin/dns/edit" else codes "/api2/admin/dns/add") in
        snprintf ctx.request_buflen info.system.server_req (
          path
          ∷ info.server_name.name
          ∷ info.creds.password
          ∷ info.user_agent
          ∷ print_nat len
          ∷ url
          ∷ []))
]

unfoldable pub response : Jsmn → Trans → Info → Alias → ℕ
response jsmn trans info alias =
    checked trans (if success jsmn trans.rsp_body then 0 else rc_ddns_rsp_notok)

abbrev pub plugin : Jsmn → Plugin
plugin jsmn = record { setup = some (setup jsmn); request = request; response = response jsmn }

-- The structures at their places in memory.
abbrev pub entry : Jsmn → ℕ → System → Entry
entry jsmn place s = record { id = place; system = s; plugin = plugin jsmn }

abbrev pub registrations : Jsmn → ℕ → List Registration
registrations jsmn place = register yandex_post_request (entry jsmn place system) ∷ []

unfoldable pub plugin_init : Jsmn → ℕ → Registry → Registry
unfolding register_all
plugin_init jsmn place plugins = register_all (registrations jsmn place) plugins

unfoldable pub plugin_exit : Jsmn → ℕ → Registry → Registry
unfolding unregister_all
plugin_exit jsmn place plugins = unregister_all (entry jsmn place system ∷ []) plugins
