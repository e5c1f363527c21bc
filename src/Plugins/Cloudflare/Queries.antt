-- ===== src/Plugins/Cloudflare/Queries.antt =====
-- The requests of plugins/cloudflare.c, and how it reads the answers to its queries.
use inadyn.Prelude.{
  ℕ, Bool, false, ◌&&◌, ◌||◌, Option, none, some, List, [], ◌∷◌, ◌++◌, if◌then◌else◌,
}
use inadyn.Prelude.Text.{Str, codes, contains}
use inadyn.Prelude.Int.{ℤ}
use inadyn.Error.{rc_ok, rc_ddns_rsp_notok, rc_ddns_rsp_auth_fail, rc_ddns_rsp_retry_later}
use inadyn.World.{Env, World}
use inadyn.Http.{status_is}
use inadyn.Ddns.State.{Info}
use inadyn.Ddns.Query.{crlf}
use inadyn.Json.{Jsmn, Token, parse_json, jsoneq, json_bool, is_object}
use inadyn.Plugins.Query.{Extracted, extract, value_of, max_id}

-- What each request has behind its first line; a length is printed before it is put in.
abbrev headers : Str
headers =
    codes "Host: api.cloudflare.com"
    ++ crlf
    ++ codes "User-Agent: %s"
    ++ crlf
    ++ codes "Accept: */*"
    ++ crlf
    ++ codes "Authorization: Bearer %s"
    ++ crlf
    ++ codes "Content-Type: application/json"
    ++ crlf

abbrev pub cloudflare_zone_id_request : Str
cloudflare_zone_id_request =
    codes "GET /client/v4/zones?name=%s HTTP/1.0" ++ crlf ++ headers ++ crlf

abbrev pub cloudflare_hostname_name_request_by_id : Str
cloudflare_hostname_name_request_by_id =
    codes "GET /client/v4/zones/%s/dns_records/%s HTTP/1.0" ++ crlf ++ headers ++ crlf

abbrev pub cloudflare_hostname_id_request_by_name : Str
cloudflare_hostname_id_request_by_name =
    codes "GET /client/v4/zones/%s/dns_records?type=%s&name=%s%s HTTP/1.0"
    ++ crlf
    ++ headers
    ++ crlf

abbrev pub cloudflare_hostname_create_request : Str
cloudflare_hostname_create_request =
    codes "POST /client/v4/zones/%s/dns_records HTTP/1.0"
    ++ crlf
    ++ headers
    ++ codes "Content-Length: %s"
    ++ crlf
    ++ crlf
    ++ codes "%s"

abbrev pub cloudflare_hostname_update_request : Str
cloudflare_hostname_update_request =
    codes "PATCH /client/v4/zones/%s/dns_records/%s HTTP/1.0"
    ++ crlf
    ++ headers
    ++ codes "Content-Length: %s"
    ++ crlf
    ++ crlf
    ++ codes "%s"

-- A quotation mark.
abbrev quote : Str
quote = 34 ∷ []

abbrev pub quoted : Str → Str
quoted s = quote ++ s ++ quote

abbrev pub cloudflare_update_json_format : Str
cloudflare_update_json_format =
    codes "{"
    ++ quoted (codes "type")
    ++ codes ":"
    ++ quoted (codes "%s")
    ++ codes ","
    ++ quoted (codes "name")
    ++ codes ":"
    ++ quoted (codes "%s%s")
    ++ codes ","
    ++ quoted (codes "content")
    ++ codes ":"
    ++ quoted (codes "%s")
    ++ codes "%s}"

unfoldable pub check_response_code : ℤ → ℕ
check_response_code status =
    if status_is 200 status || status_is 304 status
    then rc_ok
    else if status_is 400 status
    then rc_ddns_rsp_notok
    else if status_is 403 status
    then rc_ddns_rsp_auth_fail
    else if status_is 429 status
    then rc_ddns_rsp_retry_later
    else rc_ddns_rsp_notok

-- The value behind the key, where it is a Boolean one.
abbrev pub next_bool : Str → List Token → Bool
next_bool json [] = false
next_bool json (v ∷ rest) = elim (json_bool json v) [ none ↦ false | some set ↦ set ]

-- Whether the code is 0, of the tokens from an index on.
unfoldable pub check_success : Str → List Token → Bool
check_success json [] = false
check_success json (t ∷ rest) =
    if jsoneq json t (codes "success") then next_bool json rest else check_success json rest

abbrev pub tail : List Token → List Token
tail [] = []
tail (t ∷ rest) = rest

unfoldable pub check_success_only : Jsmn → Str → Bool
unfolding check_success
check_success_only jsmn json = elim (parse_json jsmn json) [
  | none ↦ false
  | some tokens ↦ check_success json (tail tokens)
]

abbrev pub root_is_object : List Token → Bool
root_is_object [] = false
root_is_object (t ∷ rest) = is_object t.type

unfoldable pub get_result_value : Jsmn → Str → Str → Option Token
unfolding check_success
get_result_value jsmn key json = elim (parse_json jsmn json) [
  | none ↦ none
  | some tokens ↦
      if root_is_object tokens && check_success json (tail tokens)
      then value_of json key (tail tokens)
      else none
]

unfoldable pub json_extract : Jsmn → Env → Info → Str → ℕ → Str → Str → World → Extracted
unfolding check_response_code get_result_value
json_extract jsmn env info req req_len key dest w =
    extract check_response_code (λ json. (get_result_value jsmn key json, false)) max_id env info
      req req_len dest w

unfoldable pub get_record_type : Str → Str
get_record_type address = if contains address (codes ":") then codes "AAAA" else codes "A"
