-- ===== src/Plugins/Cloudflare.antt =====
-- The provider cloudflare.com (plugins/cloudflare.c).
mod Queries
mod Ids
pub mod Laws
pub mod Setup
unfoldable pub use Queries.{
  cloudflare_zone_id_request, cloudflare_hostname_name_request_by_id,
  cloudflare_hostname_id_request_by_name, cloudflare_hostname_create_request,
  cloudflare_hostname_update_request, quoted, cloudflare_update_json_format, check_response_code,
  next_bool, check_success, tail, check_success_only, root_is_object, get_result_value,
  json_extract, get_record_type,
}
unfoldable pub use Ids.{
  hex_value, hex_number, skip_0x, ullong_max, saturate, negated, signed_hex, strtoull, is_record_id,
}
use inadyn.Prelude.{
  ℕ, zero, suc, ◌+◌, ◌-◌, ◌*◌, ◌^◌, Bool, true, false, not, ◌&&◌, ◌||◌, Option, none, some, List,
  [], ◌∷◌, ◌++◌, ◌==◌, leb, has, if◌then◌else◌, length,
}
use inadyn.Prelude.Text.{Str, codes, contains, format, strlcpy, is_digit, print_nat, print_int}
use inadyn.Prelude.Int.{ℤ, pos, negsuc}
use inadyn.Error.{
  rc_ok, rc_ddns_rsp_notok, rc_ddns_rsp_auth_fail, rc_ddns_rsp_retry_later, rc_ddns_rsp_nohost,
  rc_ddns_invalid_option, rc_buffer_overflow,
}
use inadyn.World.{Env, World}
use inadyn.Http.{Trans, status_is, skip_space}
use inadyn.Ddns.State.{Alias, Info, Ctx, System, Plugin, Ready}
use inadyn.Ddns.Query.{crlf}
use inadyn.Json.{Jsmn, Token, parse_json, jsoneq, json_bool, is_object}
use inadyn.Plugins.Common.{snprintf}
use inadyn.Plugins.Query.{
  Extracted, extract, value_of, overwrite, max_id, pack_ids, zone_id, hostname_id, ready,
}
use inadyn.Plugins.Registry.{Entry, Registry}
use inadyn.Plugins.Table.{
  static_system, Registration, register, register_v6, register_all, unregister_all,
}

abbrev pub system : System
system =
    static_system (codes "default@cloudflare.com") none false (codes "1.1.1.1")
      (codes "/cdn-cgi/trace") (pos 1) (codes "api.cloudflare.com") (codes "/client/v4")

abbrev pub star : Info → Str
star info = if info.wildcard then codes "*." else []

-- The end of `setup`: a record that is not there is to be created.
abbrev pub settled : ℕ → ℕ
settled rc = if rc == rc_ddns_rsp_nohost then rc_ok else rc

abbrev pub kept_id : ℕ → Str → Str
kept_id rc id = if rc == rc_ddns_rsp_nohost then [] else id

-- What follows a query for the name of a record, for the identifier of one, and for that of the zone.
-- The first argument tells whether its text did not fit the buffer, so that it was not sent.
unfoldable pub name_answered : Bool → Ctx → Alias → Str → Str → World → Extracted → Ready
name_answered true ctx alias zone buf w e =
    ready rc_buffer_overflow buf ctx.work_buf alias.name (some (pack_ids zone alias.name)) w
name_answered false ctx alias zone buf w e =
    ready (settled e.rc) buf ctx.work_buf e.dest (some (pack_ids zone (kept_id e.rc alias.name)))
      e.world

unfoldable pub id_answered : Bool → Ctx → Alias → Str → Str → World → Extracted → Ready
id_answered true ctx alias zone buf w e =
    ready rc_buffer_overflow buf ctx.work_buf alias.name (some (pack_ids zone [])) w
id_answered false ctx alias zone buf w e =
    ready (settled e.rc) buf ctx.work_buf alias.name (some (pack_ids zone (kept_id e.rc e.dest)))
      e.world

unfoldable pub zone_answered :
    Bool → Ctx → Alias → Str → World → Extracted → (Str → World → Ready) → Ready
zone_answered true ctx alias buf w e find =
    ready rc_buffer_overflow buf ctx.work_buf alias.name (some (pack_ids [] [])) w
zone_answered false ctx alias buf w e find =
    if e.rc == rc_ok
    then find e.dest e.world
    else ready e.rc buf ctx.work_buf alias.name (some (pack_ids e.dest [])) e.world

-- With the identifier of a record for a host name, the name is asked for and replaces it. The whole
-- buffer is sent, in which the text of the query for the zone is still behind that of this one.
unfoldable pub find_name : Jsmn → Env → Ctx → Info → Alias → Str → Str → World → Ready
find_name jsmn env ctx info alias zone sent w =
    let req =
      format cloudflare_hostname_name_request_by_id
        (zone ∷ alias.name ∷ info.user_agent ∷ info.creds.password ∷ []) in
    let buf = strlcpy ctx.request_buflen req in
    let e =
      json_extract jsmn env info (overwrite buf sent) ctx.request_buflen (codes "name") alias.name
        w in
    name_answered (leb ctx.request_buflen (length req)) ctx alias zone buf w e

-- With a host name, the identifier of its first record is asked for.
unfoldable pub find_id : Jsmn → Env → Ctx → Info → Alias → Str → Str → World → Ready
find_id jsmn env ctx info alias zone sent w =
    let req = format cloudflare_hostname_id_request_by_name (
      zone
      ∷ get_record_type alias.address
      ∷ star info
      ∷ alias.name
      ∷ info.user_agent
      ∷ info.creds.password
      ∷ []) in
    let buf = strlcpy ctx.request_buflen req in
    let e = json_extract jsmn env info (overwrite buf sent) ctx.request_buflen (codes "id") [] w in
    id_answered (leb ctx.request_buflen (length req)) ctx alias zone buf w e

-- From the structure on: the identifier of the zone, then that of the record.
unfoldable pub find_zone : Jsmn → Env → Ctx → Info → Alias → World → Ready
find_zone jsmn env ctx info alias w =
    let req =
      format cloudflare_zone_id_request
        (info.creds.username ∷ info.user_agent ∷ info.creds.password ∷ []) in
    let buf = strlcpy ctx.request_buflen req in
    let e = json_extract jsmn env info buf (length req) (codes "id") [] w in
    zone_answered (leb ctx.request_buflen (length req)) ctx alias buf w e (λ zone w'.
      if is_record_id alias.name
      then find_name jsmn env ctx info alias zone buf w'
      else find_id jsmn env ctx info alias zone buf w')

unfoldable pub setup : Jsmn → Env → Ctx → Info → Alias → World → Ready
setup jsmn env ctx info alias w =
    if contains info.creds.username (codes ".")
    then find_zone jsmn env ctx info alias w
    else ready rc_ddns_invalid_option ctx.request_buf ctx.work_buf alias.name info.provider_data w

-- `additional_fields`: the second field is written over the first.
unfoldable pub additional_fields : ℤ → ℤ → Str
additional_fields (negsuc zero) (negsuc zero) = []
additional_fields proxied (negsuc zero) =
    codes ","
    ++ quoted (codes "proxied")
    ++ (if status_is 0 proxied then codes ":false" else codes ":true")
additional_fields proxied ttl =
    strlcpy 64 (codes "," ++ quoted (codes "ttl") ++ codes ":" ++ print_int ttl)

-- The content of the request, whose whole length is announced, before it is cut to its buffer.
unfoldable pub content : Info → Alias → Str
unfolding additional_fields get_record_type
content info alias = format cloudflare_update_json_format (
    get_record_type alias.address
    ∷ star info
    ∷ alias.name
    ∷ alias.address
    ∷ additional_fields info.proxied info.ttl
    ∷ [])

-- What `info->data` points to; a NULL is read as zeros.
abbrev pub ids : Info → Str
ids info = elim info.provider_data [ none ↦ [] | some s ↦ s ]

unfoldable pub request : Ctx → Info → Alias → ℤ × Str
unfolding content zone_id hostname_id
request ctx info alias =
    let text = content info alias in
    let json_data = strlcpy 256 text in
    elim (hostname_id (ids info)) [
      | [] ↦ snprintf ctx.request_buflen cloudflare_hostname_create_request (
          zone_id (ids info)
          ∷ info.user_agent
          ∷ info.creds.password
          ∷ print_nat (length text)
          ∷ json_data
          ∷ [])
      | c ∷ id ↦ snprintf ctx.request_buflen info.system.server_req (
          zone_id (ids info)
          ∷ (c ∷ id)
          ∷ info.user_agent
          ∷ info.creds.password
          ∷ print_nat (length text)
          ∷ json_data
          ∷ [])
    ]

unfoldable pub response : Jsmn → Trans → Info → Alias → ℕ
unfolding check_response_code check_success_only
response jsmn trans info alias =
    let rc = check_response_code trans.status in
    if rc == rc_ok && not (check_success_only jsmn trans.rsp_body) then rc_ddns_rsp_notok else rc

abbrev pub plugin : Jsmn → Plugin
plugin jsmn = record { setup = some (setup jsmn); request = request; response = response jsmn }

-- The structures at their places in memory.
abbrev pub entry : Jsmn → ℕ → System → Entry
entry jsmn place s = record { id = place; system = s; plugin = plugin jsmn }

abbrev pub registrations : Jsmn → ℕ → List Registration
registrations jsmn place =
    register cloudflare_hostname_update_request (entry jsmn place system)
    ∷ register_v6 (place + 1) cloudflare_hostname_update_request (entry jsmn place system)
    ∷ []

unfoldable pub plugin_init : Jsmn → ℕ → Registry → Registry
unfolding register_all
plugin_init jsmn place plugins = register_all (registrations jsmn place) plugins

unfoldable pub plugin_exit : Jsmn → ℕ → Registry → Registry
unfolding unregister_all
plugin_exit jsmn place plugins = unregister_all (entry jsmn place system ∷ []) plugins
