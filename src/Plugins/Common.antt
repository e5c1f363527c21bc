-- ===== src/Plugins/Common.antt =====
-- What many plugins share (plugins/common.c): the DynDNS request, and the answers to it. A request
-- goes into a buffer by snprintf, and its whole length is returned also where it was cut short.
pub mod Laws
use inadyn.Prelude.{
  ℕ, Bool, true, false, ◌||◌, Option, none, some, List, [], ◌∷◌, ◌==◌, length, if◌then◌else◌,
}
use inadyn.Prelude.Text.{Str, codes, contains, format, strlcpy}
use inadyn.Prelude.Int.{ℤ, pos}
use inadyn.Error.{rc_ok, rc_ddns_rsp_retry_later, rc_ddns_rsp_auth_fail, rc_ddns_rsp_nohost}
use inadyn.Error.{rc_ddns_rsp_notok}
use inadyn.Http.{Trans, http_status_valid}
use inadyn.Ddns.State.{Alias, Info, Ctx}

-- snprintf (buf, buflen, fmt, args...), with the content of the buffer behind its value.
abbrev pub snprintf : ℕ → Str → List Str → ℤ × Str
snprintf buflen fmt args = let text = format fmt args in (pos (length text), strlcpy buflen text)

unfoldable pub common_request : Ctx → Info → Alias → ℤ × Str
common_request ctx info alias =
    let wildcard = (if info.wildcard then codes "&wildcard=ON" else []) in
    snprintf ctx.request_buflen info.system.server_req (
      info.server_url ∷ alias.name ∷ alias.address ∷ wildcard ∷ info.server_name.name
      ∷ info.creds.encoded_password ∷ info.user_agent ∷ [])

-- DO (http_status_valid (status)), then the code for the body.
abbrev pub checked : Trans → ℕ → ℕ
checked trans rc =
    let status = http_status_valid trans.status in if status == rc_ok then rc else status

unfoldable pub common_response : Trans → Info → Alias → ℕ
common_response trans info alias =
    let body = trans.rsp_body in
    checked trans (
      if contains body (codes "good") || contains body (codes "nochg") || contains body (codes "OK")
      then 0
      else if contains body (codes "dnserr")
          || contains body (codes "911")
          || contains body (codes "abuse")
      then rc_ddns_rsp_retry_later
      else if contains body (codes "badauth") || contains body (codes "!donator")
      then rc_ddns_rsp_auth_fail
      else if contains body (codes "nohost")
      then rc_ddns_rsp_nohost
      else if contains body (codes "nofqdn")
      then rc_ddns_rsp_nohost
      else rc_ddns_rsp_notok)
