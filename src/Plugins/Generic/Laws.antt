-- ===== src/Plugins/Generic/Laws.antt =====
-- The rounds of the loop over the format specifiers (plugins/generic.c), and where it goes wrong.
use inadyn.Prelude.{
  ℕ, zero, suc, ◌≡◌, ◌≢◌, refl, ap, ◌∙◌, Bool, false, ◌||◌, none, some, [], ◌∷◌, ◌++◌, arith, All,
  length, leb,
}
use inadyn.Prelude.Text.{Str}
use inadyn.Prelude.Int.{negsuc}
use inadyn.Ddns.State.{Alias, Info}
use inadyn.Plugins.Generic.{before_percent, from_percent, specifier, custom_server_url, url_size}

abbrev pub NoPercent : Str → Type 0
NoPercent = All (λ c. c ≢ b'%')

pub NoPercent-append : (s t : Str) → NoPercent s → NoPercent t → NoPercent (s ++ t)
NoPercent-append [] t h k = k
NoPercent-append (c ∷ s) t h k = (h.0, NoPercent-append s t h.1 k)

pub from_percent-append : (s t : Str) → NoPercent s → from_percent (s ++ t) ≡ from_percent t
unfolding from_percent
from_percent-append [] t h = refl
from_percent-append (c ∷ s) t h = ground (arith, from_percent-append s t)

before_percent-append : (s t : Str) → NoPercent s → before_percent (s ++ b'%' ∷ t) ≡ s
unfolding before_percent
before_percent-append [] t h = refl
before_percent-append (c ∷ s) t h = ground (arith, before_percent-append s t)

from_percent-here : (t : Str) → from_percent (b'%' ∷ t) ≡ b'%' ∷ t
unfolding from_percent
from_percent-here t = refl

module _ (info : Info) (alias : Alias) where
  from_percent-specifier :
      (s rest : Str) (d : ℕ) → NoPercent s → from_percent (s ++ b'%' ∷ d ∷ rest) ≡ b'%' ∷ d ∷ rest
  from_percent-specifier s rest d clean =
      from_percent-append s (b'%' ∷ d ∷ rest) clean ∙ from_percent-here (d ∷ rest)

  specifier-percent : specifier info alias b'%' ≡ some (b'%' ∷ [])
  unfolding specifier
  specifier-percent = refl

  specifier-username : specifier info alias b'u' ≡ some info.creds.username
  unfolding specifier
  specifier-username = refl

  -- One round on a text whose first specifier is known.
  pub custom_server_url-round :
      (fuel : ℕ) (o : Bool) (s rest value : Str) (d : ℕ)
      → NoPercent s
      → specifier info alias d ≡ some value
      → custom_server_url (suc fuel) info alias o (s ++ b'%' ∷ d ∷ rest)
        ≡ custom_server_url fuel info alias
            (o || leb url_size (length (s ++ (value ++ rest))))
            (s ++ (value ++ rest))
  unfolding custom_server_url
  custom_server_url-round fuel o s rest value d clean e =
      rw
        (
          custom_server_url,
          from_percent-specifier s rest d clean,
          e,
          before_percent-append s (d ∷ rest) clean,
        )
        refl

  -- The text behind `%%` is read again, so that the remaining `%` starts a specifier of its own: where
  -- what follows is no specifier, as in an escaped `%20`, the whole path is refused.
  pub escape_refused :
      (fuel : ℕ) (s rest : Str) (d : ℕ)
      → NoPercent s
      → specifier info alias d ≡ none
      → (o : Bool) × (custom_server_url
            (suc (suc fuel))
            info
            alias
            false
            (s ++ b'%' ∷ b'%' ∷ d ∷ rest)
          ≡ some (record { rc = negsuc 0; text = s ++ b'%' ∷ d ∷ rest; overrun = o }))
  unfolding custom_server_url
  escape_refused fuel s rest d clean e = (
    leb url_size (length (s ++ b'%' ∷ d ∷ rest)),
    custom_server_url-round (suc fuel) false s (d ∷ rest) (b'%' ∷ []) b'%' clean (specifier-percent)
        ∙ rw (custom_server_url, from_percent-specifier s rest d clean, e) refl,
  )

  -- A user name that is itself `%u` is put in for ever: no amount of fuel ends the loop.
  pub username_diverges :
      (fuel : ℕ) (o : Bool) (s rest : Str)
      → NoPercent s
      → info.creds.username ≡ b'%' ∷ b'u' ∷ []
      → custom_server_url fuel info alias o (s ++ b'%' ∷ b'u' ∷ rest) ≡ none
  unfolding custom_server_url
  username_diverges zero o s rest clean e = refl
  username_diverges (suc fuel) o s rest clean e =
      custom_server_url-round fuel o s rest (b'%' ∷ b'u' ∷ []) b'u' clean
        (specifier-username ∙ ap some e)
      ∙ username_diverges fuel (o || leb url_size (length (s ++ b'%' ∷ b'u' ∷ rest))) s rest clean e
