-- ===== src/Plugins/Freedns.antt =====
-- The provider freedns.afraid.org (plugins/freedns.c). The function sha1 is a parameter.
use inadyn.Prelude.{
  ℕ, ◌+◌, false, ◌&&◌, Option, none, some, List, [], ◌∷◌, ◌++◌, ◌==◌, if◌then◌else◌, length, take,
}
use inadyn.Prelude.Text.{Str, codes, contains, format, strlcpy, strstr, strcmp_eq}
use inadyn.Prelude.Int.{ℤ, pos}
use inadyn.Error.{rc_ok, rc_error, rc_ddns_rsp_notok, rc_ddns_rsp_auth_fail}
use inadyn.World.{Env, World}
use inadyn.Http.{Trans, http_status_valid}
use inadyn.Ddns.State.{Alias, Info, Ctx, System, Plugin, Ready, ddns_get_tcp_force}
use inadyn.Ddns.Query.{crlf, dyndns_checkip_http_request}
use inadyn.Plugins.Common.{snprintf, checked}
use inadyn.Plugins.Digest.{hex}
use inadyn.Plugins.Query.{query, ready}
use inadyn.Plugins.Scan.{scan_set, skip_text}
use inadyn.Plugins.Registry.{Entry, Registry}
use inadyn.Plugins.Table.{
  static_system, Registration, register, register_v6, register_all, unregister_all,
}

-- From a text to the bytes of its digest.
abbrev pub Sha1 : Type 0
Sha1 = Str → List ℕ

abbrev pub sha1_digest_bytes : ℕ
sha1_digest_bytes = 20

abbrev pub freedns_update_ip_request : Str
freedns_update_ip_request =
    codes "GET %s?%s&address=%s HTTP/1.0"
    ++ crlf
    ++ codes "Host: %s"
    ++ crlf
    ++ codes "User-Agent: %s"
    ++ crlf
    ++ crlf

abbrev pub system : System
system =
    static_system (codes "default@freedns.afraid.org") none false (codes "freedns.afraid.org")
      (codes "/dynamic/check.php") (pos 0) (codes "freedns.afraid.org")
      (codes "/dynamic/update.php")

-- What `fetch_keys` returns, with the buffers and the world.
pub record Keys : Type 0 where
  pub keys : Option Str
  pub request_buf : Str
  pub work_buf : Str
  pub world : World

-- The request is composed after the connection is there.
unfoldable pub fetch_keys : Sha1 → Env → Ctx → Info → World → Keys
fetch_keys sha1 env ctx info w =
    let text =
      strlcpy 384 (format (codes "%s|%s") (info.creds.username ∷ info.creds.password ∷ [])) in
    let digeststr = hex (take sha1_digest_bytes (sha1 text)) in
    let url = strlcpy 384 (format (codes "/api/?action=getdyndns&v=2&sha=%s") (digeststr ∷ [])) in
    let req =
      format dyndns_checkip_http_request (url ∷ info.server_name.name ∷ info.user_agent ∷ []) in
    let buf = strlcpy ctx.request_buflen req in
    let (rc, trans, w') =
      query env (ddns_get_tcp_force info) info buf (length req) ctx.work_buf ctx.work_buflen w in
    record {
      keys =
          if rc == rc_ok && http_status_valid trans.status == rc_ok
          then some trans.rsp_body
          else none;
      request_buf = if env.ssl_open w.history == rc_ok then buf else ctx.request_buf;
      work_buf = trans.rsp;
      world = w';
    }

abbrev add_first : ℕ → List Str → List Str
add_first c [] = (c ∷ []) ∷ []
add_first c (line ∷ rest) = (c ∷ line) ∷ rest

-- The lines that strsep (&tmp, "\n") gives.
unfoldable pub lines : Str → List Str
lines [] = [] ∷ []
lines (c ∷ s) = let rest = lines s in if c == 10 then [] ∷ rest else add_first c rest

-- "|", carriage return, line feed.
abbrev stops : Str
stops = b'|' ∷ 13 ∷ 10 ∷ []

abbrev second_bar : Str → Str → Option (Str × Str)
second_bar host rest = elim (skip_text (b'|' ∷ []) rest) [
  | none ↦ none
  | some url ↦ elim (scan_set 255 stops url) [
    | none ↦ none
    | some (updateurl, end) ↦ some (host, updateurl)
  ]
]

abbrev first_bar : Str → Str → Option (Str × Str)
first_bar host rest = elim (skip_text (b'|' ∷ []) rest) [
  | none ↦ none
  | some ip ↦ elim (scan_set (length ip) stops ip) [
    | none ↦ none
    | some (skipped, end) ↦ second_bar host end
  ]
]

-- sscanf (line, "%255[^|\r\n]|%*[^|\r\n]|%255[^|\r\n]", host, updateurl) == 2
unfoldable pub scan_line : Str → Option (Str × Str)
scan_line line = elim (scan_set 255 stops line) [
  | none ↦ none
  | some (host, rest) ↦ first_bar host rest
]

-- The text behind the question mark of an URL.
unfoldable pub behind_question : Str → Option Str
behind_question updateurl = elim (strstr updateurl (codes "?")) [
  | none ↦ none
  | some [] ↦ none
  | some (c ∷ hash) ↦ some hash
]

-- The first line of the host decides.
unfoldable pub find_hash : Str → List Str → Option Str
unfolding scan_line behind_question
find_hash name [] = none
find_hash name (line ∷ rest) =
    let later = find_hash name rest in
    elim (scan_line line) [
      | none ↦ later
      | some (host, updateurl) ↦ if strcmp_eq host name then behind_question updateurl else later
    ]

-- What follows the query in `setup`.
unfoldable pub after_keys : Info → Alias → Keys → Ready
unfolding find_hash lines
after_keys info alias k =
    let failed : ℕ → Ready =
      λ rc. ready rc k.request_buf k.work_buf alias.name info.provider_data k.world in
    elim k.keys [
      | none ↦ failed rc_error
      | some buf ↦
          if contains buf (codes "Failed authenticating to fetch API keys")
          then failed rc_ddns_rsp_auth_fail
          else elim (find_hash alias.name (lines buf)) [
            | none ↦ failed 1
            | some hash ↦ ready 0 k.request_buf k.work_buf alias.name (some hash) k.world
          ]
    ]

unfoldable pub setup : Sha1 → Env → Ctx → Info → Alias → World → Ready
setup sha1 env ctx info alias w = after_keys info alias (fetch_keys sha1 env ctx info w)

-- With no key the length is 0.
unfoldable pub request : Ctx → Info → Alias → ℤ × Str
request ctx info alias = elim info.provider_data [
  | none ↦ (pos 0, ctx.request_buf)
  | some hash ↦
      snprintf ctx.request_buflen info.system.server_req
        (info.server_url ∷ hash ∷ alias.address ∷ info.server_name.name ∷ info.user_agent ∷ [])
]

unfoldable pub response : Trans → Info → Alias → ℕ
response trans info alias =
    checked trans (if contains trans.rsp_body alias.address then 0 else rc_ddns_rsp_notok)

abbrev pub plugin : Sha1 → Plugin
plugin sha1 = record { setup = some (setup sha1); request = request; response = response }

-- The structures at their places in memory.
abbrev pub entry : Sha1 → ℕ → System → Entry
entry sha1 place s = record { id = place; system = s; plugin = plugin sha1 }

abbrev pub registrations : Sha1 → ℕ → List Registration
registrations sha1 place =
    register freedns_update_ip_request (entry sha1 place system)
    ∷ register_v6 (place + 1) freedns_update_ip_request (entry sha1 place system)
    ∷ []

unfoldable pub plugin_init : Sha1 → ℕ → Registry → Registry
unfolding register_all
plugin_init sha1 place plugins = register_all (registrations sha1 place) plugins

unfoldable pub plugin_exit : Sha1 → ℕ → Registry → Registry
unfolding unregister_all
plugin_exit sha1 place plugins = unregister_all (entry sha1 place system ∷ []) plugins
