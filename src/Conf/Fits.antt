-- ===== src/Conf/Fits.antt =====
-- The providers of a configuration fit the buffers of include/ddns.h.
use inadyn.Prelude.{
  ℕ, zero, suc, ◌-◌, IfReturned, ◌≤◌, ◌<◌, Bool, true, false, Option, none, some, List, [], ◌∷◌,
  arith, All, length, length-take-le, map, Option-cases, Bool-cases, inl, inr, if◌then◌else◌,
}
use inadyn.Prelude.Text.{Str, codes, strcasecmp_eq}
use inadyn.Ddns.State.{
  Alias, Info, Ctx, Options, Provider, ServerName, System, server_name_len, server_url_len,
  username_len, password_len,
}
use inadyn.Plugins.Registry.{Registry}
use inadyn.Conf.Parsed.{Section, ConfFile}
use inadyn.Conf.Server.{Strtonum, getserver, cfg_getserver, NameFits, getserver-NameFits}
use inadyn.Conf.Provider.{
  Defaults, or_default, ddns_max_alias_number, max_num_responses, max_response_len,
  generic_responses, new_info, store, add_aliases, add_responses, server_responses, set_servers,
  set_options, set_custom, set_checkip, set_checkip_server, set_agent, set_info, checkip_path,
  find_system, provider_name, set_provider_opts,
}
use inadyn.Conf.File.{Setting, create_provider, create_providers, conf_parse_file}

-- Each text leaves room for its NUL, and each table holds what it is given.
pub record InfoFits (info : Info) : Type 0 where
  pub server_name : NameFits info.server_name
  pub checkip_name : NameFits info.checkip_name
  pub server_url : length info.server_url < server_url_len
  pub checkip_url : length info.checkip_url < server_url_len
  pub username : length info.creds.username < username_len
  pub password : length info.creds.password < password_len
  pub responses : length info.server_response ≤ max_num_responses
  pub response : All (λ s. length s < max_response_len) info.server_response

pub record Fits (p : Provider) : Type 0 where
  pub info : InfoFits p.info
  pub aliases : length p.aliases ≤ ddns_max_alias_number
  pub alias : All (λ (a : Alias). length a.name < server_name_len) p.aliases

store-fits :
    (size : ℕ) (o : Option Str) (old : Str) → length old < size → length (store size o old) < size
unfolding store
store-fits size none old h = h
store-fits size (some str) old h = ground (arith, length-take-le (size - 1) str)

add_aliases-fits :
    (room : ℕ) (names : List (Option Str))
    → (length (add_aliases room names) ≤ room)
      × All (λ (a : Alias). length a.name < server_name_len) (add_aliases room names)
unfolding add_aliases
add_aliases-fits room [] = ground arith
add_aliases-fits room (none ∷ rest) = add_aliases-fits room rest
add_aliases-fits zero (some s ∷ rest) = add_aliases-fits zero rest
add_aliases-fits (suc room) (some s ∷ rest) =
    ground (arith, add_aliases-fits room rest, length-take-le 255 s)

add_responses-fits :
    (room : ℕ) (texts : List (Option Str))
    → (length (add_responses room texts) ≤ room)
      × All (λ s. length s < max_response_len) (add_responses room texts)
unfolding add_responses
add_responses-fits room [] = ground arith
add_responses-fits room (none ∷ rest) = add_responses-fits room rest
add_responses-fits zero (some s ∷ rest) = add_responses-fits zero rest
add_responses-fits (suc room) (some s ∷ rest) =
    ground (arith, add_responses-fits room rest, length-take-le 31 s)

server_responses-fits :
    (texts : List (Option Str))
    → (length (server_responses texts) ≤ max_num_responses)
      × All (λ s. length s < max_response_len) (server_responses texts)
unfolding server_responses
server_responses-fits [] = add_responses-fits max_num_responses (map some generic_responses)
server_responses-fits (r ∷ rest) = add_responses-fits max_num_responses (r ∷ rest)

checkip_path-fits : (o : Option Str) → length (checkip_path o) < server_url_len
unfolding checkip_path
checkip_path-fits none = ground arith
checkip_path-fits (some str) = ground (arith, length-take-le 511 str)

set_checkip_server-InfoFits :
    (n : ServerName) (cfg : Section) (info : Info)
    → NameFits n
    → InfoFits info
    → InfoFits (set_checkip_server n cfg info)
unfolding set_checkip_server
set_checkip_server-InfoFits n cfg info fits h =
    let p = checkip_path-fits cfg.checkip_path in
    elim (Bool-cases (strcasecmp_eq n.name (codes "default"))) [
      | inl e ↦ ground (arith, e, h)
      | inr e ↦ ground (arith, e, h)
    ]

module _ (strtonum : Strtonum) where
  set_servers-InfoFits :
      (system : System) → IfReturned InfoFits (set_servers strtonum system (new_info system))
  unfolding set_servers
  set_servers-InfoFits system = elim (Option-cases (getserver strtonum system.checkip_name)) [
    | inl e ↦ ground (arith, e)
    | inr (checkip, e) ↦ elim (Option-cases (getserver strtonum system.server_name)) [
      | inl e' ↦ ground (arith, e, e')
      | inr (server, e') ↦ ground (
        arith,
        e,
        e',
        getserver-NameFits strtonum system.checkip_name checkip e,
        getserver-NameFits strtonum system.server_name server e',
        length-take-le 511 system.checkip_url,
        length-take-le 511 system.server_url,
      )
    ]
  ]

  set_options-InfoFits :
      (cfg : Section) (info : Info) → InfoFits info → InfoFits (set_options cfg info)
  unfolding set_options
  set_options-InfoFits cfg info h = ground (
    arith,
    h,
    store-fits username_len cfg.username info.creds.username,
    store-fits password_len cfg.password info.creds.password,
  )

  cfg_getserver-NameFits : (o : Option Str) → IfReturned NameFits (cfg_getserver strtonum o)
  unfolding cfg_getserver
  cfg_getserver-NameFits none = ground arith
  cfg_getserver-NameFits (some str) = elim (Option-cases (getserver strtonum str)) [
    | inl e ↦ ground (arith, e)
    | inr (n, e) ↦ ground (arith, e, getserver-NameFits strtonum str n e)
  ]

  set_custom-InfoFits :
      (cfg : Section) (info : Info) → InfoFits info → InfoFits (set_custom strtonum cfg info)
  unfolding set_custom
  set_custom-InfoFits cfg info h =
      let n = cfg_getserver-NameFits cfg.ddns_server in
      let r = server_responses-fits cfg.ddns_response in
      let u = store-fits server_url_len cfg.ddns_path info.server_url h.server_url in
      elim (Option-cases (cfg_getserver strtonum cfg.ddns_server)) [
        | inl e ↦ ground (arith, e, h, r, u)
        | inr (name, e) ↦ ground (arith, e, h, r, u, n)
      ]

  set_checkip-InfoFits :
      (cfg : Section) (info : Info) → InfoFits info → InfoFits (set_checkip strtonum cfg info)
  unfolding set_checkip
  set_checkip-InfoFits cfg info h =
      let n = cfg_getserver-NameFits cfg.checkip_server in
      elim (Option-cases (cfg_getserver strtonum cfg.checkip_server)) [
        | inl e ↦ ground (arith, e, h)
        | inr (name, e) ↦
            ground (arith, e, set_checkip_server-InfoFits name cfg info (ground (arith, e, n)) h)
      ]

  set_info-InfoFits :
      (defaults : Defaults) (cfg : Section) (custom : Bool) (info : Info)
      → InfoFits info
      → InfoFits (set_info strtonum defaults cfg custom info)
  unfolding set_info set_agent
  set_info-InfoFits defaults cfg true info h =
      let h' =
        set_checkip-InfoFits cfg (set_custom strtonum cfg (set_options cfg info))
          (set_custom-InfoFits cfg (set_options cfg info) (set_options-InfoFits cfg info h)) in
      ground (arith, h')
  set_info-InfoFits defaults cfg false info h =
      let h' = set_checkip-InfoFits cfg (set_options cfg info) (set_options-InfoFits cfg info h) in
      ground (arith, h')

  -- Whatever a section holds, the provider that is made of it fits: every text has room for its NUL,
  -- and there are no more host names and responses than their tables hold.
  pub set_provider_opts-Fits :
      (plugins : Registry) (defaults : Defaults) (cfg : Section) (custom : Bool)
      → IfReturned Fits (set_provider_opts strtonum plugins defaults cfg custom)
  unfolding set_provider_opts
  set_provider_opts-Fits plugins defaults cfg custom =
      elim (Option-cases (find_system (provider_name cfg custom) plugins)) [
        | inl e ↦ ground (arith, e)
        | inr (x, e) ↦
            let f = set_servers-InfoFits x.system in
            elim (Option-cases (set_servers strtonum x.system (new_info x.system))) [
              | inl e' ↦ ground (arith, e, e')
              | inr (info, e') ↦ ground (
                arith,
                e,
                e',
                set_info-InfoFits defaults cfg custom info (ground (arith, e', f)),
                add_aliases-fits ddns_max_alias_number cfg.hostname,
              )
            ]
      ]

create_provider-Fits :
    (s : Setting) (defaults : Defaults) (custom : Bool) (cfg : Section) (list : List Provider)
    → All Fits list
    → All Fits (create_provider s defaults custom cfg list).1
unfolding create_provider
create_provider-Fits s defaults custom cfg list h =
    let f = set_provider_opts-Fits s.strtonum s.plugins defaults cfg custom in
    elim (Option-cases (set_provider_opts s.strtonum s.plugins defaults cfg custom)) [
      | inl e ↦ ground (arith, e, h)
      | inr (p, e) ↦ ground (arith, e, h, f)
    ]

create_providers-Fits :
    (s : Setting) (defaults : Defaults) (custom : Bool) (sections : List Section)
    (r : Bool × List Provider)
    → All Fits r.1
    → All Fits (create_providers s defaults custom sections r).1
unfolding create_providers
create_providers-Fits s defaults custom [] r h = h
create_providers-Fits s defaults custom (cfg ∷ rest) (ret, list) h =
    create_providers-Fits s defaults custom rest
      (
        if (create_provider s defaults custom cfg list).0 then true else ret,
        (create_provider s defaults custom cfg list).1,
      )
      (create_provider-Fits s defaults custom cfg list h)

-- Whatever the file holds, and also when it is refused, each provider in the list fits its buffers if
-- those that were there before did.
pub conf_parse_file-Fits :
    (s : Setting) (cfg : ConfFile) (ctx : Ctx) (opts : Options) (list : List Provider)
    → All Fits list
    → All Fits (conf_parse_file s cfg ctx opts list).info_list
unfolding conf_parse_file
conf_parse_file-Fits s cfg ctx opts list h =
    let agent = or_default s.ddns_user_agent cfg.user_agent in
    let defaults : Defaults = record { script_cmd = s.script_cmd; user_agent = agent } in
    let r = create_providers s defaults false cfg.provider (false, list) in
    ground (
      arith,
      h,
      create_providers-Fits s defaults true cfg.custom r
          (create_providers-Fits s defaults false cfg.provider (false, list) h),
    )
