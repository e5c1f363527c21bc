-- ===== src/Conf/Validate.antt =====
-- The validation of a configuration (`validate_period` and the like, src/conf.c), which the parser calls
-- for an option or a section that it has read. `none` stands for a result of -1; a section may be
-- changed. The syntax demands a title, and a list has a text for each element.
pub mod Laws
use inadyn.Prelude.{
  has, ℕ, Bool, true, false, not, ◌&&◌, ◌||◌, Option, none, some, List, [], ◌∷◌, all, ltb, leb,
  length, if◌then◌else◌,
}
use inadyn.Prelude.Text.{Str, codes}
use inadyn.Ddns.State.{System, server_name_len}
use inadyn.Plugins.Registry.{Registry}
use inadyn.Conf.Parsed.{Section, ConfFile}
use inadyn.Conf.Provider.{ddns_max_alias_number, find_system, or_empty}

abbrev pub ddns_min_period : ℕ
ddns_min_period = 30

abbrev pub ddns_max_period : ℕ
ddns_max_period = 864000

unfoldable pub validate_period : ConfFile → ConfFile
validate_period cfg =
    if ltb cfg.period ddns_min_period
    then record cfg { period = ddns_min_period }
    else if ltb ddns_max_period cfg.period
    then record cfg { period = ddns_max_period }
    else cfg

-- Converts the option `alias` to `hostname`.
unfoldable pub deprecate_alias : Section → Option Section
deprecate_alias cfg = elim cfg.alias [
  | [] ↦ some cfg
  | a ∷ rest ↦ elim cfg.hostname [
    | [] ↦ some (record cfg { hostname = a ∷ rest; alias = [] })
    | h ∷ more ↦ none
  ]
]

-- Whether the list of host names is accepted.
unfoldable pub validate_hostname : List (Option Str) → Bool
validate_hostname [] = false
validate_hostname (h ∷ rest) =
    all (λ (o : Option Str). leb (length (or_empty o)) server_name_len) (h ∷ rest)
    && ltb (length (h ∷ rest)) ddns_max_alias_number

unfoldable pub has_creds : System → Section → Bool
has_creds system cfg = (system.nousername || has cfg.username) && has cfg.password

unfoldable pub validate_common : Registry → Section → Str → Bool → Option Section
unfolding find_system has_creds deprecate_alias validate_hostname
validate_common plugins cfg provider custom = elim (find_system provider plugins) [
  | none ↦ none
  | some ds ↦
      if custom || has_creds ds.system cfg
      then elim (deprecate_alias cfg) [
        | none ↦ none
        | some cfg' ↦ if validate_hostname cfg'.hostname then some cfg' else none
      ]
      else none
]

unfoldable pub validate_provider : Registry → Section → Option Section
unfolding validate_common
validate_provider plugins cfg = validate_common plugins cfg cfg.title false

unfoldable pub validate_custom : Registry → Section → Option Section
unfolding validate_common
validate_custom plugins cfg =
    if has cfg.ddns_server then validate_common plugins cfg (codes "custom") true else none
