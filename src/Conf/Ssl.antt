-- ===== src/Conf/Ssl.antt =====
-- When the address of the client is asked for with HTTPS.
use inadyn.Prelude.{
  zero, suc, ◌==◌, ◌≡◌, refl, has, Bool, true, false, not, ◌&&◌, ◌||◌, arith, IfReturned, inl, inr,
  Option-cases, if◌then◌else◌,
}
use inadyn.Prelude.Int.{ℤ, pos, negsuc}
use inadyn.Ddns.State.{Info, System}
use inadyn.Plugins.Registry.{Registry}
use inadyn.Conf.Parsed.{Section}
use inadyn.Conf.Server.{Strtonum, cfg_getserver}
use inadyn.Ddns.Send.{bool_int}
use inadyn.Conf.Provider.{
  Defaults, known_checkip_ssl, set_servers, set_options, set_custom, set_checkip,
  set_checkip_server, set_agent, set_info, find_system, provider_name, set_provider_opts, new_info,
}

abbrev is_required : ℤ → Bool
is_required (pos n) = n == 3
is_required (negsuc n) = false

abbrev is_unsupported : ℤ → Bool
is_unsupported (pos n) = false
is_unsupported (negsuc n) = n == 0

-- The manual's rules: a server that the section names is asked as `checkip-ssl` says; the one of the
-- plugin with HTTPS where it is known to require that, and otherwise if it is not known to be
-- unable to and both settings say so.
abbrev pub with_https : Section → System → Bool → Bool
with_https cfg system own =
    if own
    then cfg.checkip_ssl
    else is_required system.checkip_ssl
      || not (is_unsupported system.checkip_ssl) && cfg.ssl && cfg.checkip_ssl

known_checkip_ssl_lem :
    (x : ℤ) (ssl checkip_ssl : Bool)
    → known_checkip_ssl x ssl checkip_ssl
      ≡ bool_int (is_required x || not (is_unsupported x) && ssl && checkip_ssl)
unfolding known_checkip_ssl
known_checkip_ssl_lem (pos n) ssl checkip_ssl = ground arith
known_checkip_ssl_lem (negsuc zero) ssl checkip_ssl = ground arith
known_checkip_ssl_lem (negsuc (suc n)) ssl checkip_ssl = ground arith

module _ (strtonum : Strtonum) where
  set_checkip-rules :
      (cfg : Section) (info : Info)
      → info.ssl_enabled ≡ cfg.ssl
      → let i = set_checkip strtonum cfg info in
        (i.ssl_enabled ≡ cfg.ssl)
        × (i.checkip_ssl
            ≡ bool_int (with_https cfg i.system (has (cfg_getserver strtonum cfg.checkip_server))))
  unfolding set_checkip set_checkip_server
  set_checkip-rules cfg info h = elim (Option-cases (cfg_getserver strtonum cfg.checkip_server)) [
    | inl e ↦ ground (
      arith,
      e,
      h,
      known_checkip_ssl_lem info.system.checkip_ssl info.ssl_enabled cfg.checkip_ssl,
    )
    | inr (n, e) ↦ ground (arith, e, h)
  ]

  set_info-with_https :
      (defaults : Defaults) (cfg : Section) (custom : Bool) (info : Info)
      → let i = set_info strtonum defaults cfg custom info in
        (i.ssl_enabled ≡ cfg.ssl)
        × (i.checkip_ssl
            ≡ bool_int (with_https cfg i.system (has (cfg_getserver strtonum cfg.checkip_server))))
  unfolding set_info set_agent set_options set_custom
  set_info-with_https defaults cfg true info =
      set_checkip-rules cfg (set_custom strtonum cfg (set_options cfg info)) refl
  set_info-with_https defaults cfg false info = set_checkip-rules cfg (set_options cfg info) refl

  -- A provider that was set up is updated over HTTPS exactly when its section says `ssl`, and asked
  -- for the address of the client over HTTPS exactly by the rules of the manual.
  pub set_provider_opts-with_https :
      (plugins : Registry) (defaults : Defaults) (cfg : Section) (custom : Bool)
      → IfReturned
          (λ p.
            (p.info.ssl_enabled ≡ cfg.ssl)
            × (p.info.checkip_ssl
                ≡ bool_int (
                    with_https cfg p.info.system
                      (has (cfg_getserver strtonum cfg.checkip_server)))))
          (set_provider_opts strtonum plugins defaults cfg custom)
  unfolding set_provider_opts
  set_provider_opts-with_https plugins defaults cfg custom =
      elim (Option-cases (find_system (provider_name cfg custom) plugins)) [
        | inl e ↦ ground (arith, e)
        | inr (x, e) ↦ elim (Option-cases (set_servers strtonum x.system (new_info x.system))) [
          | inl e' ↦ ground (arith, e, e')
          | inr (info, e') ↦
              rw (set_provider_opts, e, e') (set_info-with_https defaults cfg custom info)
        ]
      ]
