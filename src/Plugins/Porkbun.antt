-- ===== src/Plugins/Porkbun.antt =====
-- The provider porkbun.com (plugins/porkbun.c).
use inadyn.Prelude.{
  ℕ, ◌+◌, Bool, true, false, not, ◌&&◌, Option, none, some, List, [], ◌∷◌, ◌++◌, ◌==◌, leb,
  if◌then◌else◌, length,
}
use inadyn.Prelude.Text.{Str, codes, contains, format, strlcpy, print_nat}
use inadyn.Prelude.Int.{ℤ, pos, negsuc}
use inadyn.Error.{
  rc_ok, rc_ddns_rsp_notok, rc_ddns_rsp_auth_fail, rc_ddns_rsp_retry_later, rc_ddns_rsp_nohost,
  rc_ddns_invalid_option, rc_buffer_overflow,
}
use inadyn.World.{Env, World}
use inadyn.Http.{Trans, status_is}
use inadyn.Ddns.State.{Alias, Info, Ctx, System, Plugin, Ready}
use inadyn.Ddns.Query.{crlf}
use inadyn.Json.{Jsmn, Token, parse_json, jsoneq}
use inadyn.Plugins.Common.{snprintf}
use inadyn.Plugins.Cloudflare.{quoted, get_record_type, root_is_object, next_bool, tail, ids}
use inadyn.Plugins.Query.{
  Extracted, extract, value_of, overwrite, max_id, pack_ids, zone_id, hostname_id, ready,
}
use inadyn.Plugins.Registry.{Entry, Registry}
use inadyn.Plugins.Table.{
  static_system, Registration, register, register_v6, register_all, unregister_all,
}

-- What each request has behind its first line; a length is printed before it is put in.
abbrev headers : Str
headers =
    codes "Host: api.porkbun.com"
    ++ crlf
    ++ codes "User-Agent: %s"
    ++ crlf
    ++ codes "Accept: */*"
    ++ crlf
    ++ codes "Content-Type: application/json"
    ++ crlf
    ++ codes "Content-Length: %s"
    ++ crlf
    ++ crlf

-- A string behind its key.
abbrev member : Str → Str
member key = quoted key ++ codes ":" ++ quoted (codes "%s")

-- The body of both queries.
abbrev pub porkbun_keys : Str
porkbun_keys =
    codes "{" ++ member (codes "apikey") ++ codes "," ++ member (codes "secretapikey") ++ codes "}"

-- The two queries have the same format.
abbrev pub porkbun_zone_id_request : Str
porkbun_zone_id_request =
    codes "GET /client/v4/dns/retrieve/%s HTTP/1.0" ++ crlf ++ headers ++ porkbun_keys

abbrev pub porkbun_hostname_id_request_by_name : Str
porkbun_hostname_id_request_by_name =
    codes "GET /client/v4/dns/retrieve/%s HTTP/1.0" ++ crlf ++ headers ++ porkbun_keys

abbrev pub porkbun_hostname_create_request : Str
porkbun_hostname_create_request =
    codes "POST /client/v4/dns/create/%s HTTP/1.0" ++ crlf ++ headers ++ codes "%s"

abbrev pub porkbun_hostname_update_request : Str
porkbun_hostname_update_request =
    codes "POST /client/v4/dns/edit/%s HTTP/1.0" ++ crlf ++ headers ++ codes "%s"

abbrev pub porkbun_update_json_format : Str
porkbun_update_json_format =
    codes "{"
    ++ member (codes "apikey")
    ++ codes ","
    ++ member (codes "secretapikey")
    ++ codes ","
    ++ member (codes "id")
    ++ codes ","
    ++ member (codes "name")
    ++ codes ","
    ++ member (codes "type")
    ++ codes ","
    ++ member (codes "content")
    ++ codes ","
    ++ member (codes "ttl")
    ++ codes ","
    ++ member (codes "prio")
    ++ codes "}"

abbrev pub system : System
system =
    static_system (codes "default@porkbun.com") none false (codes "checkip.amazonaws.com")
      (codes "/") (pos 1) (codes "api.porkbun.com") (codes "/client/v4")

unfoldable pub check_response_code : ℤ → ℕ
check_response_code status =
    if status_is 200 status
    then rc_ok
    else if status_is 400 status
    then rc_ddns_rsp_notok
    else if status_is 401 status
    then rc_ddns_rsp_auth_fail
    else if status_is 429 status
    then rc_ddns_rsp_retry_later
    else rc_ddns_rsp_notok

-- Whether the code is 0, of the tokens from an index on.
unfoldable pub check_success : Str → List Token → Bool
check_success json [] = false
check_success json (t ∷ rest) =
    if jsoneq json t (codes "success") then next_bool json rest else check_success json rest

unfoldable pub check_success_only : Jsmn → Str → Bool
unfolding check_success
check_success_only jsmn json = elim (parse_json jsmn json) [
  | none ↦ false
  | some tokens ↦ check_success json (tail tokens)
]

-- The same search where the array is passed from its second token on with the number of all of them:
-- it leaves out the first key, and reads behind the array unless it ends before. Whether the code is
-- 0, and whether it read there; what it finds there is taken not to be a success.
unfoldable pub check_shifted : Str → List Token → Bool × Bool
check_shifted json [] = (false, true)
check_shifted json (t ∷ []) = (false, true)
check_shifted json (t ∷ v ∷ rest) =
    if jsoneq json t (codes "success")
    then (next_bool json (v ∷ rest), false)
    else check_shifted json (v ∷ rest)

-- With one token the loop is not entered.
abbrev pub check_behind : Str → List Token → Bool × Bool
check_behind json [] = (false, false)
check_behind json (t ∷ rest) = check_shifted json rest

unfoldable pub get_result_value : Jsmn → Str → Str → Option Token × Bool
unfolding check_shifted
get_result_value jsmn key json = elim (parse_json jsmn json) [
  | none ↦ (none, false)
  | some tokens ↦
      if root_is_object tokens
      then (let (success, overrun) = check_behind json (tail tokens) in
          (if success then value_of json key (tail tokens) else none, overrun))
      else (none, false)
]

unfoldable pub json_extract : Jsmn → Env → Info → Str → ℕ → Str → Str → World → Extracted
unfolding check_response_code get_result_value
json_extract jsmn env info req req_len key dest w =
    extract check_response_code (get_result_value jsmn key) max_id env info req req_len dest w

-- The query for a zone or a record: what is announced is the length of the user name.
abbrev pub keys_request : Str → Str → Info → Str
keys_request fmt what info = format fmt (
    what
    ∷ info.user_agent
    ∷ print_nat (length info.creds.username)
    ∷ info.creds.username
    ∷ info.creds.password
    ∷ [])

-- From the identifier of the zone on. The whole buffer is sent, in which the text of the query for the
-- zone is still behind that of this one. A record that is not there is to be created.
unfoldable pub find_id : Jsmn → Env → Ctx → Info → Alias → Str → Str → World → Ready
unfolding json_extract
find_id jsmn env ctx info alias zone sent w =
    let req = keys_request porkbun_hostname_id_request_by_name zone info in
    let buf = strlcpy ctx.request_buflen req in
    let e = json_extract jsmn env info (overwrite buf sent) ctx.request_buflen (codes "id") [] w in
    if leb ctx.request_buflen (length req)
    then ready rc_buffer_overflow buf ctx.work_buf alias.name (some (pack_ids zone [])) w
    else if e.rc == rc_ddns_rsp_nohost
    then ready rc_ok buf ctx.work_buf alias.name (some (pack_ids zone [])) e.world
    else ready e.rc buf ctx.work_buf alias.name (some (pack_ids zone e.dest)) e.world

unfoldable pub find_zone : Jsmn → Env → Ctx → Info → Alias → World → Ready
unfolding json_extract find_id
find_zone jsmn env ctx info alias w =
    let req = keys_request porkbun_zone_id_request alias.name info in
    let buf = strlcpy ctx.request_buflen req in
    let e = json_extract jsmn env info buf (length req) (codes "id") [] w in
    if leb ctx.request_buflen (length req)
    then ready rc_buffer_overflow buf ctx.work_buf alias.name (some (pack_ids [] [])) w
    else if e.rc == rc_ok
    then find_id jsmn env ctx info alias e.dest buf e.world
    else ready e.rc buf ctx.work_buf alias.name (some (pack_ids e.dest [])) e.world

unfoldable pub setup : Jsmn → Env → Ctx → Info → Alias → World → Ready
unfolding find_zone
setup jsmn env ctx info alias w =
    if contains alias.name (codes ".")
    then find_zone jsmn env ctx info alias w
    else ready rc_ddns_invalid_option ctx.request_buf ctx.work_buf alias.name info.provider_data w

abbrev pub ttl : ℤ → Str
ttl (pos n) = print_nat n
ttl (negsuc n) = codes "300"

-- The content of the request, whose whole length is announced, before it is cut to its buffer.
unfoldable pub content : Info → Alias → Str
unfolding get_record_type hostname_id
content info alias = format porkbun_update_json_format (
    info.creds.username
    ∷ info.creds.password
    ∷ hostname_id (ids info)
    ∷ alias.name
    ∷ get_record_type alias.address
    ∷ alias.address
    ∷ ttl info.ttl
    ∷ codes "0"
    ∷ [])

-- The request that creates a record and the one that edits it, both by the identifier of the zone.
unfoldable pub request : Ctx → Info → Alias → ℤ × Str
unfolding content zone_id hostname_id
request ctx info alias =
    let text = content info alias in
    let fmt : Str = elim (hostname_id (ids info)) [
      | [] ↦ porkbun_hostname_create_request
      | c ∷ id ↦ porkbun_hostname_update_request
    ] in
    snprintf ctx.request_buflen fmt
      (zone_id (ids info) ∷ info.user_agent ∷ print_nat (length text) ∷ strlcpy 256 text ∷ [])

unfoldable pub response : Jsmn → Trans → Info → Alias → ℕ
unfolding check_response_code check_success_only
response jsmn trans info alias =
    let rc = check_response_code trans.status in
    if rc == rc_ok && not (check_success_only jsmn trans.rsp_body) then rc_ddns_rsp_notok else rc

abbrev pub plugin : Jsmn → Plugin
plugin jsmn = record { setup = some (setup jsmn); request = request; response = response jsmn }

-- The structures at their places in memory.
abbrev pub entry : Jsmn → ℕ → System → Entry
entry jsmn place s = record { id = place; system = s; plugin = plugin jsmn }

abbrev pub registrations : Jsmn → ℕ → List Registration
registrations jsmn place =
    register porkbun_hostname_update_request (entry jsmn place system)
    ∷ register_v6 (place + 1) porkbun_hostname_update_request (entry jsmn place system)
    ∷ []

unfoldable pub plugin_init : Jsmn → ℕ → Registry → Registry
unfolding register_all
plugin_init jsmn place plugins = register_all (registrations jsmn place) plugins

unfoldable pub plugin_exit : Jsmn → ℕ → Registry → Registry
unfolding unregister_all
plugin_exit jsmn place plugins = unregister_all (entry jsmn place system ∷ []) plugins
