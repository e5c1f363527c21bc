-- ===== src/Conf/Order.antt =====
-- Which providers a configuration leads to, in which order, and how the callers go through them.
use mathlib.Core.List.{reverse, reverse_aux, reverse_aux-eq}
use inadyn.Prelude.{
  has, ℕ, zero, suc, ◌<◌, ◌≡◌, refl, ap, ◌∙◌, Bool, true, false, not, ◌&&◌, ◌||◌, Option, some,
  List, [], ◌∷◌, ◌++◌, arith, all, length, map, Option-cases, inl, inr,
}
use inadyn.Ddns.State.{Ctx, Options, Provider}
use inadyn.Conf.Parsed.{Section, ConfFile}
use inadyn.Conf.Provider.{Defaults, or_default, set_provider_opts}
use inadyn.Conf.File.{
  Setting, create_provider, create_providers, conf_parse_file, missing, each_info,
}

each_info-rest :
    (fuel : ℕ) (list rest : List Provider) (p : Provider)
    → length rest < fuel
    → each_info fuel false list (p ∷ rest) ≡ some rest
unfolding each_info
each_info-rest zero list rest p h = absurd (omega arith)
each_info-rest (suc fuel) list [] p h = ground arith
each_info-rest (suc fuel) list (q ∷ rest) p h = ground (arith, each_info-rest fuel list rest q)

-- A loop over the iterator visits each provider of the list once, in the order of the list, and ends,
-- wherever the iterator stood before; one call for each provider and one more are enough.
pub each_info_lem :
    (fuel : ℕ) (list ptr : List Provider)
    → length list < fuel
    → each_info fuel true list ptr ≡ some list
unfolding each_info
each_info_lem zero list ptr h = absurd (omega arith)
each_info_lem (suc fuel) [] ptr h = ground arith
each_info_lem (suc fuel) (p ∷ rest) ptr h = ground (arith, each_info-rest fuel (p ∷ rest) rest p)

-- The provider of a section, if it can be set up.
abbrev pub made : Setting → Defaults → Bool → Section → Option Provider
made s defaults custom cfg = set_provider_opts s.strtonum s.plugins defaults cfg custom

abbrev pub defaults_of : Setting → ConfFile → Defaults
defaults_of s cfg = record {
  script_cmd = s.script_cmd;
  user_agent = or_default s.ddns_user_agent cfg.user_agent;
}

module _ (s : Setting) (defaults : Defaults) (custom : Bool) where
  create_providers-flag :
      (sections : List Section) (r : Bool × List Provider)
      → (create_providers s defaults custom sections r).0
        ≡ (r.0 || not (all (λ c. has (made s defaults custom c)) sections))
  unfolding create_providers create_provider
  create_providers-flag [] r = ground arith
  create_providers-flag (cfg ∷ rest) (ret, list) =
      elim (Option-cases (made s defaults custom cfg)) [
        | inl e ↦ ground (arith, e, create_providers-flag rest (true, list))
        | inr (p, e) ↦ ground (arith, e, create_providers-flag rest (ret, p ∷ list))
      ]

  create_providers-order :
      (sections : List Section) (r : Bool × List Provider)
      → (create_providers s defaults custom sections r).0 ≡ false
      → map some (create_providers s defaults custom sections r).1
        ≡ reverse_aux (map (made s defaults custom) sections) (map some r.1)
  unfolding create_providers create_provider
  create_providers-order [] r h = refl
  create_providers-order (cfg ∷ rest) (ret, list) h =
      elim (Option-cases (made s defaults custom cfg)) [
        | inl e ↦ ground (arith, e, h, create_providers-flag rest (true, list))
        | inr (p, e) ↦ ground (arith, e, h, create_providers-order rest (ret, p ∷ list))
      ]

-- A file is accepted exactly when the file of trusted certificates that it names exists and every
-- section, of both kinds, can be set up.
pub conf_parse_file-ok :
    (s : Setting) (cfg : ConfFile) (ctx : Ctx) (opts : Options) (list : List Provider)
    → (conf_parse_file s cfg ctx opts list).ok ≡ (
        not (missing s.fexist cfg.ca_trust_file)
        && all (λ c. has (made s (defaults_of s cfg) false c)) cfg.provider
        && all (λ c. has (made s (defaults_of s cfg) true c)) cfg.custom)
unfolding conf_parse_file
conf_parse_file-ok s cfg ctx opts list =
    let r = create_providers s (defaults_of s cfg) false cfg.provider (false, list) in
    ground (
      arith,
      create_providers-flag s (defaults_of s cfg) false cfg.provider (false, list),
      create_providers-flag s (defaults_of s cfg) true cfg.custom r,
    )

-- Of a file that is accepted, the list has one provider for each section, the sections of custom
-- providers in front, and both kinds in the reverse of their order in the file.
pub conf_parse_file-order :
    (s : Setting) (cfg : ConfFile) (ctx : Ctx) (opts : Options) (list : List Provider)
    → (conf_parse_file s cfg ctx opts list).ok ≡ true
    → map some (conf_parse_file s cfg ctx opts list).info_list
      ≡ reverse (map (made s (defaults_of s cfg) true) cfg.custom)
        ++ (reverse (map (made s (defaults_of s cfg) false) cfg.provider) ++ map some list)
unfolding conf_parse_file
conf_parse_file-order s cfg ctx opts list h =
    let d = defaults_of s cfg in
    let r = create_providers s d false cfg.provider (false, list) in
    let customs = map (made s d true) cfg.custom in
    let providers = map (made s d false) cfg.provider in
    let same = create_providers-flag s d true cfg.custom r in
    let a = create_providers-order s d true cfg.custom r (ground (arith, h)) in
    let b = create_providers-order s d false cfg.provider (false, list) (ground (arith, h, same)) in
    let there : missing s.fexist cfg.ca_trust_file ≡ false = ground (arith, h) in
    rw there (
      a
      ∙ ap (reverse_aux customs) b
      ∙ reverse_aux-eq customs (reverse_aux providers (map some list))
      ∙ ap (λ l. reverse customs ++ l) (reverse_aux-eq providers (map some list)))
