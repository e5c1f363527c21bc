-- ===== src/Plugins/Generic/Expand.antt =====
-- The loop over the format specifiers (plugins/generic.c) against one pass over the template.
use inadyn.Prelude.{
  ℕ, zero, suc, ◌≤◌, ◌≡◌, ◌≢◌, refl, ap, sym, ◌∙◌, Bool, false, ◌||◌, Option, none, some, [], ◌∷◌,
  ◌++◌, ◌==◌, arith, length, length-append, ◌+◌, ℕ-cases, Option-cases, inl, inr, leb,
  if◌then◌else◌,
}
use mathlib.Core.List.{append_assoc, append-nil}
use mathlib.Core.Option
use inadyn.Prelude.Text.{Str}
use inadyn.Prelude.Int.{pos}
use inadyn.Ddns.State.{Alias, Info}
use inadyn.Plugins.Generic.{from_percent, specifier, custom_server_url, url_size}
use inadyn.Plugins.Generic.Laws.{NoPercent, NoPercent-append, custom_server_url-round}

module _ (info : Info) (alias : Alias) where
  -- The reference: one pass over the template that never looks at a value again. It has no result on
  -- a `%` at the end, before `%` or before a character that is no specifier.
  unfoldable pub expand : Str → Option Str
  expand [] = some []
  expand (c ∷ []) = if c == b'%' then none else some (c ∷ [])
  expand (c ∷ d ∷ rest) =
      let here = expand (d ∷ rest) in
      let behind = expand rest in
      if c == b'%'
      then (if d == b'%' then none else elim (specifier info alias d) [
        | none ↦ none
        | some value ↦ Option.map (λ t. value ++ t) behind
      ])
      else Option.map (λ t. c ∷ t) here

  -- Whether the text, with `n` bytes in front of it, ever reaches the size of the buffer in such a pass,
  -- when a value was put in and what is behind it was moved.
  unfoldable pub overruns : ℕ → Str → Bool
  overruns n [] = false
  overruns n (c ∷ []) = false
  overruns n (c ∷ d ∷ rest) =
      let here = overruns (suc n) (d ∷ rest) in
      if c == b'%'
      then elim (specifier info alias d) [
        | none ↦ false
        | some value ↦
            leb url_size (n + (length value + length rest)) || overruns (n + length value) rest
      ]
      else here

  overruns-plain : (n c : ℕ) (s : Str) → c ≢ b'%' → overruns n (c ∷ s) ≡ overruns (suc n) s
  unfolding overruns
  overruns-plain n c [] h = refl
  overruns-plain n c (d ∷ rest) h = ground arith

  overruns-specifier :
      (n c d : ℕ) (rest value : Str)
      → c ≡ b'%'
      → specifier info alias d ≡ some value
      → overruns n (c ∷ d ∷ rest)
        ≡ (leb url_size (n + (length value + length rest)) || overruns (n + length value) rest)
  unfolding overruns
  overruns-specifier n c d rest value h e = ground arith

  overruns-nil : (n : ℕ) (o : Bool) → (o || overruns n []) ≡ o
  unfolding overruns
  overruns-nil n o = ground arith

  from_percent-none : (s : Str) → NoPercent s → from_percent s ≡ []
  unfolding from_percent
  from_percent-none [] h = refl
  from_percent-none (c ∷ s) h = ground (arith, from_percent-none s h.1)

  expand-plain : (c : ℕ) (s : Str) → c ≢ b'%' → expand (c ∷ s) ≡ Option.map (λ t. c ∷ t) (expand s)
  unfolding expand
  expand-plain c [] h = ground arith
  expand-plain c (d ∷ rest) h = ground arith

  expand-plain_inv :
      (c : ℕ) (s out : Str)
      → c ≢ b'%'
      → expand (c ∷ s) ≡ some out
      → (t : Str) × (expand s ≡ some t) × (out ≡ c ∷ t)
  expand-plain_inv c s out h e = elim (Option-cases (expand s)) [
    | inl empty ↦ ground (arith, expand-plain c s h)
    | inr (t, e') ↦ (t, e', ground (arith, expand-plain c s h))
  ]

  expand-specifier_inv :
      (d : ℕ) (rest out : Str)
      → expand (b'%' ∷ d ∷ rest) ≡ some out
      → (value t : Str) × (d ≢ b'%')
        × (specifier info alias d ≡ some value)
        × (expand rest ≡ some t)
        × (out ≡ value ++ t)
  unfolding expand
  expand-specifier_inv d rest out e = elim (ℕ-cases d b'%') [
    | inl here ↦ ground arith
    | inr other ↦ elim (Option-cases (specifier info alias d)) [
      | inl none₁ ↦ ground arith
      | inr (value, e₁) ↦ elim (Option-cases (expand rest)) [
        | inl none₂ ↦ ground arith
        | inr (t, e₂) ↦ (value, t, other, e₁, e₂, ground arith)
      ]
    ]
  ]

  -- The loop ends on `text`, without an error.
  abbrev Ends : ℕ → Bool → Str → Str → Bool → Type 0
  Ends fuel o buf text o' =
      custom_server_url fuel info alias o buf
      ≡ some (record { rc = pos (length text); text = text; overrun = o' })

  Ends-plain : (fuel : ℕ) (o : Bool) (buf : Str) → NoPercent buf → Ends (suc fuel) o buf buf o
  unfolding custom_server_url
  Ends-plain fuel o buf clean = rw (custom_server_url, from_percent-none buf clean) refl

  Ends-specifier :
      (fuel : ℕ) (o o' : Bool) (acc rest value text : Str) (d : ℕ)
      → NoPercent acc
      → specifier info alias d ≡ some value
      → Ends fuel
          (o || leb url_size (length (acc ++ (value ++ rest))))
          ((acc ++ value) ++ rest)
          text
          o'
      → Ends (suc fuel) o (acc ++ b'%' ∷ d ∷ rest) text o'
  Ends-specifier fuel o o' acc rest value text d clean e behind =
      custom_server_url-round info alias fuel o acc rest value d clean e
      ∙ ap (custom_server_url fuel info alias (o || leb url_size (length (acc ++ (value ++ rest)))))
          (sym (append_assoc acc value rest))
      ∙ behind

  Ends-cons :
      (fuel c : ℕ) (o o' : Bool) (acc s t out : Str)
      → out ≡ c ∷ t
      → Ends fuel o ((acc ++ c ∷ []) ++ s) ((acc ++ c ∷ []) ++ t) o'
      → Ends fuel o (acc ++ c ∷ s) (acc ++ out) o'
  Ends-cons fuel c o o' acc s t out joined h =
      rw (joined, ← append_assoc acc (c ∷ []) s, ← append_assoc acc (c ∷ []) t) h

  -- The flag behind a byte that is kept, and behind a value that is put in.
  flag-plain :
      (c : ℕ) (acc s : Str) (o o' : Bool)
      → c ≢ b'%'
      → o' ≡ (o || overruns (length acc) (c ∷ s))
      → o' ≡ (o || overruns (length (acc ++ c ∷ [])) s)
  flag-plain c acc s o o' plain h = rw (length-append acc (c ∷ [])) (
      h
      ∙ ap (λ b. o || b) (overruns-plain (length acc) c s plain)
      ∙ ap (λ n. o || overruns n s) (omega arith))

  flag-specifier :
      (c d : ℕ) (acc rest value : Str) (o o' : Bool)
      → c ≡ b'%'
      → specifier info alias d ≡ some value
      → o' ≡ (o || overruns (length acc) (c ∷ d ∷ rest))
      → o' ≡ (
          (o || leb url_size (length (acc ++ (value ++ rest))))
          || overruns (length (acc ++ value)) rest)
  flag-specifier c d acc rest value o o' here e h = ground (
    arith,
    overruns-specifier (length acc) c d rest value here e,
    length-append acc (value ++ rest),
    length-append value rest,
    length-append acc value,
  )

  expand-nil_inv : (out : Str) → expand [] ≡ some out → out ≡ []
  unfolding expand
  expand-nil_inv out e = ground arith

  expand-end : (c : ℕ) (out : Str) → expand (c ∷ []) ≡ some out → c ≢ b'%'
  unfolding expand
  expand-end c out e h = ground arith

  -- The values that may be put in.
  module _ (user : NoPercent info.creds.username) (password : NoPercent info.creds.password)
      (name : NoPercent alias.name) (address : NoPercent alias.address) where
    specifier-NoPercent :
        (d : ℕ) (value : Str) → d ≢ b'%' → specifier info alias d ≡ some value → NoPercent value
    unfolding specifier
    specifier-NoPercent d value other e = ground arith

    expand-loop :
        (fuel : ℕ) (buf acc out : Str) (o o' : Bool)
        → NoPercent acc
        → expand buf ≡ some out
        → length buf ≤ fuel
        → o' ≡ (o || overruns (length acc) buf)
        → Ends (suc fuel) o (acc ++ buf) (acc ++ out) o'
    expand-loop fuel [] acc out o o' clean e bound flag =
        rw (expand-nil_inv out e, append-nil acc, flag ∙ overruns-nil (length acc) o)
          (Ends-plain fuel o acc clean)
    expand-loop fuel (c ∷ []) acc out o o' clean e bound flag =
        (let plain = expand-end c out e in
          let (t, e₁, joined) = expand-plain_inv c [] out plain e in
          Ends-cons (suc fuel) c o o' acc [] t out joined (
            expand-loop fuel [] (acc ++ c ∷ []) t o o'
              (NoPercent-append acc (c ∷ []) clean (plain, tt)) e₁ (ground arith)
              (flag-plain c acc [] o o' plain flag)))
    expand-loop zero (c ∷ d ∷ rest) acc out o o' clean e bound flag = ground arith
    expand-loop (suc fuel) (c ∷ d ∷ rest) acc out o o' clean e bound flag = elim (ℕ-cases c b'%') [
      | inl here ↦
          (let (value, t, other, e₁, e₂, joined) =
              expand-specifier_inv d rest out (ap (λ x. expand (x ∷ d ∷ rest)) (sym here) ∙ e) in
            rw (here, joined, ← append_assoc acc value t)
              (Ends-specifier (suc fuel) o o' acc rest value ((acc ++ value) ++ t) d clean e₁ (
                expand-loop fuel rest (acc ++ value) t _ o'
                  (NoPercent-append acc value clean (specifier-NoPercent d value other e₁)) e₂
                  (ground arith) (flag-specifier c d acc rest value o o' here e₁ flag))))
      | inr plain ↦
          (let (t, e₁, joined) = expand-plain_inv c (d ∷ rest) out plain e in
            Ends-cons (suc (suc fuel)) c o o' acc (d ∷ rest) t out joined (
              expand-loop (suc fuel) (d ∷ rest) (acc ++ c ∷ []) t o o'
                (NoPercent-append acc (c ∷ []) clean (plain, tt)) e₁ (ground arith)
                (flag-plain c acc (d ∷ rest) o o' plain flag)))
    ]

    -- Where no value has a `%` in it, and each `%` of the template is in front of a known specifier that
    -- is not `%` itself, the loop ends on what one pass over the template gives, writes behind the
    -- buffer exactly when the text grows to its size on the way, and the length of the template is fuel
    -- enough.
    pub custom_server_url-expand :
        (buf out : Str)
        → expand buf ≡ some out
        → custom_server_url (suc (length buf)) info alias false buf
          ≡ some (record { rc = pos (length out); text = out; overrun = overruns 0 buf })
    custom_server_url-expand buf out e =
        expand-loop (length buf) buf [] out false (overruns 0 buf) tt e (ground arith) refl
