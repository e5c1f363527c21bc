-- ===== src/Plugins/Cloudxns.antt =====
-- The provider cloudxns.net (plugins/cloudxns.c). The function md5 and the text that strftime and
-- localtime make of a time are parameters.
mod Lists
pub mod Prefix
unfoldable pub use Lists.{
  string_endswith, scan_domain, scan_record, objects, find_domain, find_record, prefix_of,
  drop_last,
}
use inadyn.Prelude.{
  ℕ, suc, ◌+◌, true, false, Bool, ◌||◌, Option, none, some, List, [], ◌∷◌, ◌++◌, ◌==◌, leb,
  if◌then◌else◌, length, take, drop,
}
use inadyn.Prelude.Text.{Str, codes, contains, format, strlcpy, strstr, print_nat}
use inadyn.Prelude.Int.{ℤ, negsuc}
use inadyn.Error.{rc_ok, rc_ddns_rsp_notok, rc_ddns_invalid_option}
use inadyn.World.{Env, World, asked_time, emit}
use inadyn.Http.{Trans, http_status_valid, c_string}
use inadyn.Ddns.State.{Alias, Info, Ctx, System, Plugin, Ready, tcp_auto}
use inadyn.Ddns.Query.{crlf}
use inadyn.Plugins.Common.{snprintf, checked}
use inadyn.Plugins.Cloudflare.{quoted}
use inadyn.Plugins.Digest.{Md5, digest_text}
use inadyn.Plugins.Query.{query, ready, pad}
use inadyn.Plugins.Registry.{Entry, Registry}
use inadyn.Plugins.Table.{static_system, Registration, register, register_all, unregister_all}

abbrev headers : Str
headers =
    codes " HTTP/1.0"
    ++ crlf
    ++ codes "Host: %s"
    ++ crlf
    ++ codes "User-Agent: %s"
    ++ crlf
    ++ codes "API-KEY: %s"
    ++ crlf
    ++ codes "API-REQUEST-DATE: %s"
    ++ crlf
    ++ codes "API-HMAC: %s"
    ++ crlf

-- A number is printed before it is put in.
abbrev pub cloudxns_update_ip_request : Str
cloudxns_update_ip_request =
    codes "PUT %s/%s" ++ headers ++ codes "Content-Length: %s" ++ crlf ++ crlf ++ codes "%s"

abbrev pub cloudxns_get_request : Str
cloudxns_get_request = codes "GET %s" ++ headers ++ crlf

abbrev pub cloudxns_update_param_body : Str
cloudxns_update_param_body =
    codes "{"
    ++ quoted (codes "domain_id")
    ++ codes ":"
    ++ quoted (codes "%s")
    ++ codes ","
    ++ quoted (codes "host")
    ++ codes ":"
    ++ quoted (codes "%s")
    ++ codes ","
    ++ quoted (codes "value")
    ++ codes ":"
    ++ quoted (codes "%s")
    ++ codes "}"

abbrev pub system : System
system =
    static_system (codes "default@cloudxns.net") none false (codes "checkip.dyndns.com") (codes "/")
      (negsuc 0) (codes "www.cloudxns.net") (codes "/api2/record")

-- `struct cx`, the numbers in front of the buffers.
pub record Cx : Type 0 where
  pub record_id : ℕ
  pub domain_id : ℕ
  pub date : Str
  pub hmac : Str
  pub body : Str
  pub len : ℕ

unfoldable pub pack : Cx → Str
pack cx = cx.record_id ∷ cx.domain_id ∷ cx.len ∷ pad 30 cx.date ++ pad 33 cx.hmac ++ pad 256 cx.body

-- From a time to its local date and time in words.
abbrev pub Calendar : Type 0
Calendar = ℕ → Str

-- The digest of the parts in a row, which are cut to a buffer of 256 bytes, while md5 is given their
-- whole length: whether it reads behind the buffer.
unfoldable pub hmac : Md5 → Str → Str × Bool
unfolding digest_text
hmac md5 text = (digest_text md5 (strlcpy 256 text), leb 256 (length text))

abbrev pub fault_if : Bool → World → World
fault_if overrun w = if overrun then record w { fault = true } else w

-- What `http_send` returns, with the body, the buffers and the world.
pub record Answer : Type 0 where
  pub rc : ℕ
  pub body : Str
  pub request_buf : Str
  pub work_buf : Str
  pub world : World

unfoldable pub http_send : Env → Ctx → Info → Str → Str → World → Answer
http_send env ctx info work_buf req w =
    let buf = strlcpy ctx.request_buflen req in
    let (rc, trans, w') = query env tcp_auto info buf (length req) work_buf ctx.work_buflen w in
    record {
      rc = if rc == rc_ok then http_status_valid trans.status else rc;
      body = trans.rsp_body;
      request_buf = buf;
      work_buf = trans.rsp;
      world = w';
    }

-- The beginning of what is signed.
abbrev signed_url : Info → Str → Str
signed_url info path =
    info.creds.username
    ++ (if info.ssl_enabled then codes "https" else codes "http")
    ++ codes "://www.cloudxns.net"
    ++ path

abbrev get_request : Info → Str → Str → Str → Str
get_request info path date signature =
    format cloudxns_get_request
      (path ∷ info.server_name.name ∷ info.user_agent ∷ info.creds.username ∷ date ∷ signature ∷ [])

abbrev record_path : ℕ → Str
record_path id = codes "/api2/record/" ++ print_nat id

-- From the record on: the body of the update and its signature.
unfoldable pub prepare : Md5 → Ctx → Info → Alias → Str → ℕ → ℕ → Str → Answer → Ready
unfolding hmac pack
prepare md5 ctx info alias date domain_id record_id prefix a =
    let text =
      format cloudxns_update_param_body (print_nat domain_id ∷ prefix ∷ alias.address ∷ []) in
    let body = strlcpy 256 text in
    let (signature, overrun) =
      hmac md5 (signed_url info (record_path record_id) ++ body ++ date ++ info.creds.password) in
    ready 0 a.request_buf a.work_buf alias.name
      (some (
        pack (record {
          record_id = record_id;
          domain_id = domain_id;
          date = date;
          hmac = signature;
          body = body;
          len = length text;
        })))
      (fault_if overrun a.world)

-- The label `err`.
abbrev give_up : ℕ → Alias → Answer → Ready
give_up rc alias a = ready rc a.request_buf a.work_buf alias.name none a.world

-- From the list of records on: the one of the prefix is looked up. A prefix of which the program has
-- not written a byte counts as an access out of bounds.
unfoldable pub after_records : Md5 → Ctx → Info → Alias → Str → ℕ → Str → Answer → Ready
unfolding prepare find_record objects prefix_of
after_records md5 ctx info alias date domain_id domain b =
    if b.rc == rc_ok
    then elim (strstr b.body (codes "[")) [
      | none ↦ give_up rc_ddns_invalid_option alias b
      | some tmp ↦
          (let (prefix, unset) = prefix_of alias.name domain in
            let b' = record b { world = fault_if unset b.world } in
            elim (find_record prefix (objects tmp)) [
              | none ↦ give_up rc_ddns_invalid_option alias b'
              | some id ↦
                  if id == 0
                  then give_up rc_ddns_invalid_option alias b'
                  else prepare md5 ctx info alias date domain_id id prefix b'
            ])
    ]
    else give_up b.rc alias b

-- From the domain on: its records are asked for.
unfoldable pub find_host : Md5 → Env → Ctx → Info → Alias → Str → ℕ → Str → Answer → Ready
find_host md5 env ctx info alias date domain_id domain a =
    let path = record_path domain_id in
    let signed = hmac md5 (signed_url info path ++ date ++ info.creds.password) in
    after_records md5 ctx info alias date domain_id domain (
      http_send env ctx info a.work_buf (get_request info (strlcpy 256 path) date signed.0)
        (fault_if signed.1 a.world))

-- From the list of domains on: the one of the name is looked up.
unfoldable pub after_domains : Md5 → Env → Ctx → Info → Alias → Str → Answer → Ready
unfolding find_domain objects
after_domains md5 env ctx info alias date a =
    if a.rc == rc_ok
    then elim (strstr a.body (codes "[")) [
      | none ↦ give_up rc_ddns_invalid_option alias a
      | some tmp ↦ elim (find_domain alias.name (objects tmp)) [
        | none ↦ give_up rc_ddns_invalid_option alias a
        | some (id, domain) ↦
            if id == 0
            then give_up rc_ddns_invalid_option alias a
            else find_host md5 env ctx info alias date id domain a
      ]
    ]
    else give_up a.rc alias a

unfoldable pub setup : Md5 → Calendar → Env → Ctx → Info → Alias → World → Ready
setup md5 calendar env ctx info alias w =
    let date = strlcpy 30 (calendar (env.time w.history)) in
    let signed = hmac md5 (signed_url info (codes "/api2/domain") ++ date ++ info.creds.password) in
    after_domains md5 env ctx info alias date (
      http_send env ctx info ctx.work_buf (get_request info (codes "/api2/domain") date signed.0)
        (fault_if signed.1 (emit asked_time w)))

-- The request from the structure, if there is one.
unfoldable pub request : Ctx → Info → Alias → ℤ × Str
request ctx info alias = elim info.provider_data [
  | none ↦ (negsuc 0, ctx.request_buf)
  | some [] ↦ (negsuc 0, ctx.request_buf)
  | some (record_id ∷ []) ↦ (negsuc 0, ctx.request_buf)
  | some (record_id ∷ domain_id ∷ []) ↦ (negsuc 0, ctx.request_buf)
  | some (record_id ∷ domain_id ∷ len ∷ bufs) ↦ snprintf ctx.request_buflen info.system.server_req (
      info.server_url
      ∷ print_nat record_id
      ∷ info.server_name.name
      ∷ info.user_agent
      ∷ info.creds.username
      ∷ c_string (take 30 bufs)
      ∷ c_string (take 33 (drop 30 bufs))
      ∷ print_nat len
      ∷ c_string (drop 63 bufs)
      ∷ [])
]

unfoldable pub response : Trans → Info → Alias → ℕ
response trans info alias =
    checked trans (if contains trans.rsp_body alias.address then 0 else rc_ddns_rsp_notok)

abbrev pub plugin : Md5 → Calendar → Plugin
plugin md5 calendar = record {
  setup = some (setup md5 calendar);
  request = request;
  response = response;
}

-- The structures at their places in memory.
abbrev pub entry : Md5 → Calendar → ℕ → System → Entry
entry md5 calendar place s = record { id = place; system = s; plugin = plugin md5 calendar }

abbrev pub registrations : Md5 → Calendar → ℕ → List Registration
registrations md5 calendar place =
    register cloudxns_update_ip_request (entry md5 calendar place system) ∷ []

unfoldable pub plugin_init : Md5 → Calendar → ℕ → Registry → Registry
unfolding register_all
plugin_init md5 calendar place plugins = register_all (registrations md5 calendar place) plugins

unfoldable pub plugin_exit : Md5 → Calendar → ℕ → Registry → Registry
unfolding unregister_all
plugin_exit md5 calendar place plugins =
    unregister_all (entry md5 calendar place system ∷ []) plugins
