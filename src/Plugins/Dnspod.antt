-- ===== src/Plugins/Dnspod.antt =====
-- The provider dnspod.cn (plugins/dnspod.c).
pub mod Split
use inadyn.Prelude.{
  ℕ, zero, suc, ◌+◌, ◌%◌, ◌^◌, false, true, ◌&&◌, Bool, Option, none, some, List, [], ◌∷◌, ◌++◌,
  ◌==◌, leb, has, if◌then◌else◌, length,
}
use inadyn.Prelude.Text.{Str, codes, contains, format, strlcpy, strstr, starts_with, print_nat}
use inadyn.Prelude.Int.{ℤ, pos, negsuc}
use inadyn.Error.{
  rc_ok, rc_ddns_rsp_notok, rc_ddns_invalid_option, rc_buffer_overflow, rc_invalid_pointer,
}
use inadyn.World.{Env, World}
use inadyn.Http.{Trans, http_status_valid}
use inadyn.Ddns.State.{
  Alias, Info, Ctx, System, Plugin, Ready, ddns_get_tcp_force, tcp_force_ipv6, server_name_len,
}
use inadyn.Ddns.Query.{crlf}
use inadyn.Plugins.Common.{snprintf, checked}
use inadyn.Plugins.Query.{query, ready}
use inadyn.Plugins.Scan.{scan_int, skip_text}
use inadyn.Plugins.Registry.{Entry, Registry}
use inadyn.Plugins.Table.{static_system, Registration, register, register_all, unregister_all}

-- A length is printed before it is put in.
abbrev pub dnspod_api_request : Str
dnspod_api_request =
    codes "POST /%s HTTP/1.0"
    ++ crlf
    ++ codes "Host: %s"
    ++ crlf
    ++ codes "User-Agent: %s"
    ++ crlf
    ++ codes "Content-Length: %s"
    ++ crlf
    ++ codes "Content-Type: application/x-www-form-urlencoded"
    ++ crlf
    ++ crlf
    ++ codes "%s"

abbrev pub system : System
system =
    static_system (codes "default@dnspod.cn") none false (codes "checkip.dyndns.com") (codes "/")
      (negsuc 0) (codes "dnsapi.cn") (codes "/")

abbrev pub system_v6 : System
system_v6 =
    static_system (codes "ipv6@dnspod.cn") none false (codes "dns64.cloudflare-dns.com")
      (codes "/cdn-cgi/trace") (pos 1) (codes "dnsapi.cn") (codes "/")

abbrev api_request : Info → Str → Str → Str
api_request info call post =
    format dnspod_api_request
      (call ∷ info.server_name.name ∷ info.user_agent ∷ print_nat (length post) ∷ post ∷ [])

-- What `fetch_record_id` returns, an identifier or a code that is returned as a negative number, with
-- the buffers and the world.
pub record Fetched : Type 0 where
  pub id : ℤ
  pub code : ℕ
  pub request_buf : Str
  pub work_buf : Str
  pub world : World

-- sscanf (tmp, "[{\"id\":\"%d\"", &record_id) == 1 at the first "[{".
unfoldable pub record_id_in : Str → Option ℤ
record_id_in body = elim (strstr body (codes "[{")) [
  | none ↦ none
  | some tmp ↦ elim (skip_text (codes "[{" ++ 34 ∷ codes "id" ++ 34 ∷ b':' ∷ 34 ∷ []) tmp) [
    | none ↦ none
    | some at_id ↦ elim (scan_int at_id) [ none ↦ none | some (n, rest) ↦ some n ]
  ]
]

-- A code in place of an identifier.
abbrev pub failed : ℕ → Str → Str → World → Fetched
failed rc request_buf work_buf w = record {
  id = pos 0;
  code = rc;
  request_buf = request_buf;
  work_buf = work_buf;
  world = w;
}

-- What follows the query.
unfoldable pub of_answer : Str → ℕ × Trans × World → Fetched
unfolding record_id_in
of_answer buf (rc, trans, w) =
    if rc == rc_ok
    then if http_status_valid trans.status == rc_ok
      then elim (record_id_in trans.rsp_body) [
        | none ↦ failed rc_ddns_invalid_option buf trans.rsp w
        | some n ↦ record { id = n; code = 0; request_buf = buf; work_buf = trans.rsp; world = w }
      ]
      else failed (http_status_valid trans.status) buf trans.rsp w
    else failed rc buf trans.rsp w

-- A text that is too long for its buffer is not sent.
unfoldable pub unless_long : Bool → Ctx → World → Fetched → Fetched
unless_long true ctx w f = failed rc_buffer_overflow ctx.request_buf ctx.work_buf w
unless_long false ctx w f = f

unfoldable pub fetch_record_id : Env → Ctx → Info → Alias → Str → Str → World → Fetched
fetch_record_id env ctx info alias domain prefix w =
    let text =
      format (codes "login_token=%s%%2C%s&format=json&domain=%s&length=1&sub_domain=%s")
        (info.creds.username ∷ info.creds.password ∷ domain ∷ prefix ∷ []) in
    let req = api_request info (codes "Record.List") text in
    let buf = strlcpy ctx.request_buflen req in
    unless_long (leb 256 (length text)) ctx w (
      of_answer buf
        (query env (ddns_get_tcp_force info) info buf (length req) ctx.work_buf ctx.work_buflen w))

-- What stands before the first dot, and what stands behind it, if there is one.
unfoldable pub at_dot : Str → Option (Str × Str)
at_dot [] = none
at_dot (c ∷ s) =
    let later = at_dot s in
    if c == b'.'
    then some ([], s)
    else elim later [ none ↦ none | some (before, behind) ↦ some (c ∷ before, behind) ]

-- The domain and the prefix of a name that has a dot: "@" where nothing but one label is behind it.
unfoldable pub split_name : Str → Option (Str × Str)
unfolding at_dot
split_name name = elim (at_dot name) [
  | none ↦ none
  | some (before, behind) ↦
      if contains behind (codes ".") then some (behind, before) else some (name, codes "@")
]

-- A record_id that is not positive is a failure: a negative one that the answer holds is the code.
abbrev failure_code : ℤ → ℕ → ℕ
failure_code (negsuc n) code = suc n
failure_code (pos n) code = if code == 0 then rc_ddns_invalid_option else code

abbrev is_positive : ℤ → Bool
is_positive (negsuc n) = false
is_positive (pos n) = leb 1 n

abbrev magnitude : ℤ → ℕ
magnitude (negsuc n) = suc n
magnitude (pos n) = n

-- The text that `setup` leaves for the request.
unfoldable pub post_text : Info → Alias → Str → Str → ℕ → Str
post_text info alias domain prefix record_id =
    let record_type =
      (if ddns_get_tcp_force info == tcp_force_ipv6 then codes "AAAA" else codes "A") in
    format
      (codes
        "login_token=%s%%2C%s&format=json&domain=%s&record_type=%s&record_id=%s&record_line=%s&value=%s&sub_domain=%s")
      (info.creds.username
        ∷ info.creds.password
        ∷ domain
        ∷ record_type
        ∷ print_nat record_id
        ∷ codes "%E9%BB%98%E8%AE%A4"
        ∷ alias.address
        ∷ prefix
        ∷ [])

-- What follows the query in `setup`.
unfoldable pub after_fetch : Ctx → Info → Alias → Str → Str → Fetched → Ready
unfolding post_text
after_fetch ctx info alias domain prefix f =
    let text = post_text info alias domain prefix (magnitude f.id) in
    if is_positive f.id
    then if leb server_name_len (length text)
      then ready rc_buffer_overflow f.request_buf f.work_buf alias.name info.provider_data f.world
      else ready 0 f.request_buf f.work_buf alias.name (some text) f.world
    else ready (failure_code f.id f.code) f.request_buf f.work_buf alias.name info.provider_data
        f.world

unfoldable pub setup : Env → Ctx → Info → Alias → World → Ready
setup env ctx info alias w = elim (split_name (strlcpy server_name_len alias.name)) [
  | none ↦ ready rc_ddns_invalid_option ctx.request_buf ctx.work_buf alias.name info.provider_data w
  | some (domain, prefix) ↦
      after_fetch ctx info alias domain prefix (fetch_record_id env ctx info alias domain prefix w)
]

-- With no text the code RC_INVALID_POINTER is returned as a negative length.
unfoldable pub request : Ctx → Info → Alias → ℤ × Str
request ctx info alias = elim info.provider_data [
  | none ↦ (negsuc 1, ctx.request_buf)
  | some post ↦ snprintf ctx.request_buflen info.system.server_req (
      codes "Record.Ddns"
      ∷ info.server_name.name
      ∷ info.user_agent
      ∷ print_nat (length post)
      ∷ post
      ∷ [])
]

unfoldable pub response : Trans → Info → Alias → ℕ
response trans info alias =
    checked trans (if contains trans.rsp_body alias.address then 0 else rc_ddns_rsp_notok)

abbrev pub plugin : Plugin
plugin = record { setup = some setup; request = request; response = response }

-- The structures at their places in memory.
abbrev pub entry : ℕ → System → Entry
entry place s = record { id = place; system = s; plugin = plugin }

abbrev pub registrations : ℕ → List Registration
registrations place =
    register dnspod_api_request (entry place system)
    ∷ register dnspod_api_request (entry (place + 1) system_v6)
    ∷ []

unfoldable pub plugin_init : ℕ → Registry → Registry
unfolding register_all
plugin_init place plugins = register_all (registrations place) plugins

unfoldable pub plugin_exit : ℕ → Registry → Registry
unfolding unregister_all
plugin_exit place plugins =
    unregister_all (entry place system ∷ entry (place + 1) system_v6 ∷ []) plugins
