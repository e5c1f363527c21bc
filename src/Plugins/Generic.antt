-- ===== src/Plugins/Generic.antt =====
-- The custom provider (plugins/generic.c): a server path with format specifiers, filled in in place.
pub mod System
pub mod Laws
pub mod Expand
use inadyn.Prelude.{
  ℕ, zero, suc, ◌+◌, Bool, true, false, ◌&&◌, ◌||◌, Option, none, some, List, [], ◌∷◌, ◌++◌, ◌==◌,
  leb, length, any, if◌then◌else◌, map,
}
use inadyn.Prelude.Text.{Str, strlcpy, contains_case}
use inadyn.Prelude.Int.{ℤ, pos, negsuc}
use inadyn.Error.{rc_ddns_rsp_notok}
use inadyn.Http.{Trans}
use inadyn.Ddns.State.{Alias, Info, Ctx}
use inadyn.Plugins.Common.{snprintf, checked}
use inadyn.Plugins.Url.{url_encode}

-- 2 * sizeof (info->server_url)
abbrev pub url_size : ℕ
url_size = 1024

-- strchr (buf, '%'): the text before it, and the text from it on.
unfoldable pub before_percent : Str → Str
before_percent [] = []
before_percent (c ∷ s) = if c == b'%' then [] else c ∷ before_percent s

unfoldable pub from_percent : Str → Str
from_percent [] = []
from_percent (c ∷ s) = if c == b'%' then c ∷ s else from_percent s

-- What stands for a specifier. A user name or password that is not set is logged, and skipped.
unfoldable pub specifier : Info → Alias → ℕ → Option Str
specifier info alias d =
    if d == b'u'
    then some info.creds.username
    else if d == b'p'
    then some info.creds.password
    else if d == b'h'
    then some alias.name
    else if d == b'i'
    then some alias.address
    else if d == b'%'
    then some (b'%' ∷ [])
    else none

-- The buffer after the loop: the return code, its text, and whether a replacement ran over its end.
pub record Filled : Type 0 where
  pub rc : ℤ
  pub text : Str
  pub overrun : Bool

-- `while ((ptr = strchr (buf, '%')))`, with fuel; `none` means that it ran out. Each round looks from
-- the start of the buffer again. `replace_fmt` does not test the size of the buffer.
unfoldable pub custom_server_url : ℕ → Info → Alias → Bool → Str → Option Filled
custom_server_url zero info alias overrun buf = none
custom_server_url (suc fuel) info alias overrun buf = elim (from_percent buf) [
  | [] ↦ some (record { rc = pos (length buf); text = buf; overrun = overrun })
  | c ∷ [] ↦ some (record { rc = negsuc 0; text = buf; overrun = overrun })
  | c ∷ d ∷ rest ↦ elim (specifier info alias d) [
    | none ↦ some (record { rc = negsuc 0; text = buf; overrun = overrun })
    | some value ↦
        custom_server_url fuel info alias
          (overrun || leb url_size (length (before_percent buf ++ (value ++ rest))))
          (before_percent buf ++ (value ++ rest))
  ]
]

-- The request: a path with specifiers is filled in, and otherwise the host name, or the address,
-- is put behind it. An error in the path is logged, and the text as far as it got is sent.
unfoldable pub request : ℕ → Ctx → Info → Alias → Option (ℤ × Str)
request fuel ctx info alias =
    let buf = strlcpy url_size info.server_url in
    let send = λ (url arg : Str). snprintf ctx.request_buflen info.system.server_req (
      url_encode url
      ∷ arg
      ∷ info.server_name.name
      ∷ info.creds.encoded_password
      ∷ info.user_agent
      ∷ []) in
    elim (from_percent buf) [
      | [] ↦ some (send buf (if info.append_myip then alias.address else alias.name))
      | c ∷ s ↦ elim (custom_server_url fuel info alias false buf) [
        | none ↦ none
        | some filled ↦ some (send filled.text [])
      ]
    ]

-- Any of the configured answers will do.
unfoldable pub response : Trans → Info → Alias → ℕ
response trans info alias = checked trans (
    if any (λ r. contains_case trans.rsp_body r) info.server_response then 0 else rc_ddns_rsp_notok)
