-- ===== src/Plugins/Yandex/Stale.antt =====
-- The identifier of one record that the search of plugins/yandex.c takes for another's.
use inadyn.Prelude.{
  ℕ, suc, ◌≡◌, ◌||◌, ◌&&◌, refl, Bool, true, false, none, some, List, [], ◌∷◌, ◌++◌, arith, All,
  any, if◌then◌else◌, ◌∙◌, Bool-cases, inl, inr,
}
use inadyn.Prelude.Text.{Str, codes}
use inadyn.Prelude.Int.{pos}
use inadyn.Json.{Token, TokenType, undefined, object, array, string, primitive, jsoneq}
use inadyn.Plugins.Yandex.Records.{
  Progress, find_record_id, absent, keyword, found, is_keyword, is_found, settle, complete,
  on_token, on_text, on_value, scan_tokens,
}

-- A token that is a text, and no keyword of the search.
abbrev pub is_text : TokenType → Bool
is_text undefined = false
is_text object = false
is_text array = false
is_text string = true
is_text primitive = true

pub record IsPlain (response : Str) (tok : Token) : Type 0 where
  pub text : is_text tok.type ≡ true
  pub no_records : jsoneq response tok (codes "records") ≡ false
  pub no_subdomain : jsoneq response tok (codes "subdomain") ≡ false
  pub no_type : jsoneq response tok (codes "type") ≡ false
  pub no_record_id : jsoneq response tok (codes "record_id") ≡ false

-- The members of a record but its identifier: its name, its type, and any other.
pub data Kind : Type 0 where
  name_member type_member other_member : Kind

pub record Member : Type 0 where
  pub kind : Kind
  pub key : Token
  pub value : Token

abbrev pub HasKey : Str → Kind → Token → Type 0
HasKey response name_member key =
    (is_text key.type ≡ true)
    × (jsoneq response key (codes "records") ≡ false)
    × (jsoneq response key (codes "subdomain") ≡ true)
HasKey response type_member key =
    (is_text key.type ≡ true)
    × (jsoneq response key (codes "records") ≡ false)
    × (jsoneq response key (codes "subdomain") ≡ false)
    × (jsoneq response key (codes "type") ≡ true)
HasKey response other_member key = IsPlain response key

-- The name is the one that is asked for, and the type is A.
abbrev pub is_wanted : Str → Str → Kind → Token → Bool
is_wanted response subdomain name_member value = jsoneq response value subdomain
is_wanted response subdomain type_member value = jsoneq response value (codes "A")
is_wanted response subdomain other_member value = true

pub record IsWanted (response subdomain : Str) (m : Member) : Type 0 where
  pub has_key : HasKey response m.kind m.key
  pub plain : IsPlain response m.value
  pub wanted : is_wanted response subdomain m.kind m.value ≡ true

abbrev pub tokens_of : List Member → List Token
tokens_of [] = []
tokens_of (m ∷ rest) = m.key ∷ m.value ∷ tokens_of rest

abbrev pub is_name : Kind → Bool
is_name name_member = true
is_name type_member = false
is_name other_member = false

abbrev pub is_type : Kind → Bool
is_type name_member = false
is_type type_member = true
is_type other_member = false

module _ (response subdomain : Str) where
  -- Inside a record behind an earlier one, between two members.
  record IsBehind (n : ℕ) (p : Progress) : Type 0 where
    inside : p.state ≡ find_record_id
    earlier : p.record_id ≡ pos (suc n)
    no_id : p.id_keyword_found ≡ false
    name_settled : is_keyword p.subdomain_field ≡ false
    type_settled : is_keyword p.type_field ≡ false

  plain_lem :
      (tok : Token) (p : Progress)
      → IsPlain response tok
      → p.state ≡ find_record_id
      → p.id_keyword_found ≡ false
      → let p₁ = record p {
        subdomain_field = settle (jsoneq response tok subdomain) p.subdomain_field;
        type_field = settle (jsoneq response tok (codes "A")) p.type_field;
      } in
        on_token response subdomain tok p ≡ (p₁, complete p.record_id p₁)
  unfolding on_token on_text on_value
  plain_lem tok p plain inside no_id =
      ground
        (arith, plain.text, plain.no_records, plain.no_subdomain, plain.no_type, plain.no_record_id)

  name_key_lem :
      (key : Token) (p : Progress)
      → HasKey response name_member key
      → p.state ≡ find_record_id
      → on_token response subdomain key p ≡ (record p { subdomain_field = keyword }, none)
  unfolding on_token on_text
  name_key_lem key p h inside = ground arith

  type_key_lem :
      (key : Token) (p : Progress)
      → HasKey response type_member key
      → p.state ≡ find_record_id
      → on_token response subdomain key p ≡ (record p { type_field = keyword }, none)
  unfolding on_token on_text
  type_key_lem key p h inside = ground arith

  scan-on :
      (tok : Token) (rest : List Token) (p p' : Progress)
      → on_token response subdomain tok p ≡ (p', none)
      → scan_tokens response subdomain (tok ∷ rest) p ≡ scan_tokens response subdomain rest p'
  unfolding scan_tokens
  scan-on tok rest p p' e = ground (arith, e)

  scan-end :
      (tok : Token) (rest : List Token) (p p' : Progress) (n : ℕ)
      → on_token response subdomain tok p ≡ (p', some n)
      → scan_tokens response subdomain (tok ∷ rest) p ≡ pos n
  unfolding scan_tokens
  scan-end tok rest p p' n e = ground (arith, e)

  -- The progress behind a member.
  abbrev after_member : Kind → Progress → Progress
  after_member k p = record p {
    subdomain_field = if is_name k then found else p.subdomain_field;
    type_field = if is_type k then found else p.type_field;
  }

  abbrev both_found : Progress → Bool
  both_found p = is_found p.subdomain_field && is_found p.type_field

  -- A key and its value, each taken in one round.
  member_by_rounds :
      (n : ℕ) (p p₁ p₂ : Progress) (key value : Token) (rest : List Token)
      → on_token response subdomain key p ≡ (p₁, none)
      → on_token response subdomain value p₁ ≡ (p₂, if both_found p₂ then some (suc n) else none)
      → scan_tokens response subdomain (key ∷ value ∷ rest) p
        ≡ (if both_found p₂ then pos (suc n) else scan_tokens response subdomain rest p₂)
  member_by_rounds n p p₁ p₂ key value rest e e' = elim (Bool-cases (both_found p₂)) [
    | inl all ↦
        scan-on key (value ∷ rest) p p₁ e
        ∙ (rw all (scan-end value rest p₁ p₂ (suc n) (rw all at e')))
    | inr more ↦
        scan-on key (value ∷ rest) p p₁ e ∙ (rw more (scan-on value rest p₁ p₂ (rw more at e')))
  ]

  member_lem :
      (n : ℕ) (p : Progress) (kind : Kind) (key value : Token) (rest : List Token)
      → IsBehind n p
      → both_found p ≡ false
      → HasKey response kind key
      → IsPlain response value
      → is_wanted response subdomain kind value ≡ true
      → scan_tokens response subdomain (key ∷ value ∷ rest) p ≡ (
          if both_found (after_member kind p)
          then pos (suc n)
          else scan_tokens response subdomain rest (after_member kind p))
  member_lem n p name_member key value rest b pending key_is plain wanted =
      let p₁ = record p { subdomain_field = keyword } in
      member_by_rounds n p p₁ (after_member name_member p) key value rest
        (name_key_lem key p key_is b.inside)
        (plain_lem value p₁ plain b.inside b.no_id
          ∙ ground (arith, wanted, b.earlier, b.type_settled))
  member_lem n p type_member key value rest b pending key_is plain wanted =
      let p₁ = record p { type_field = keyword } in
      member_by_rounds n p p₁ (after_member type_member p) key value rest
        (type_key_lem key p key_is b.inside)
        (plain_lem value p₁ plain b.inside b.no_id
          ∙ ground (arith, wanted, b.earlier, b.name_settled))
  member_lem n p other_member key value rest b pending key_is plain wanted =
      member_by_rounds n p p (after_member other_member p) key value rest
        (plain_lem key p key_is b.inside b.no_id
          ∙ ground (arith, pending, b.earlier, b.name_settled, b.type_settled))
        (plain_lem value p plain b.inside b.no_id
          ∙ ground (arith, pending, b.earlier, b.name_settled, b.type_settled))

  after_member-IsBehind :
      (n : ℕ) (p : Progress) (k : Kind) → IsBehind n p → IsBehind n (after_member k p)
  after_member-IsBehind n p k b = record {
    inside = b.inside;
    earlier = b.earlier;
    no_id = b.no_id;
    name_settled = ground (arith, b.name_settled);
    type_settled = ground (arith, b.type_settled);
  }

  members-stale :
      (members : List Member) (rest : List Token) (n : ℕ) (p : Progress)
      → All (IsWanted response subdomain) members
      → IsBehind n p
      → both_found p ≡ false
      → (is_found p.subdomain_field || any (λ m. is_name m.kind) members) ≡ true
      → (is_found p.type_field || any (λ m. is_type m.kind) members) ≡ true
      → scan_tokens response subdomain (tokens_of members ++ rest) p ≡ pos (suc n)
  members-stale [] rest n p wanted b pending has_name has_type = ground arith
  members-stale (m ∷ ms) rest n p wanted b pending has_name has_type =
      let p' = after_member m.kind p in
      let one =
        member_lem n p m.kind m.key m.value (tokens_of ms ++ rest) b pending wanted.0.has_key
          wanted.0.plain wanted.0.wanted in
      elim (Bool-cases (both_found p')) [
        | inl all ↦ one ∙ rw all refl
        | inr more ↦
            one
            ∙ rw more (
                members-stale ms rest n p' wanted.1 (after_member-IsBehind n p m.kind b) more
                  (ground arith) (ground arith))
      ]

-- Once an earlier record gave an identifier, a record whose name is the one that is asked for and whose
-- type is A, in any order and among any other members, where all values are strings or primitives and no
-- value and no other key is a keyword of the search, is taken to have the earlier identifier where its
-- own has not come yet, whatever is behind.
pub scan_tokens-stale :
    (response subdomain : Str) (obj : Token) (members : List Member) (rest : List Token)
    (p : Progress) (n : ℕ)
    → obj.type ≡ object
    → p.state ≡ find_record_id
    → p.record_id ≡ pos (suc n)
    → All (IsWanted response subdomain) members
    → any (λ m. is_name m.kind) members ≡ true
    → any (λ m. is_type m.kind) members ≡ true
    → scan_tokens response subdomain (obj ∷ tokens_of members ++ rest) p ≡ pos (suc n)
unfolding on_token
scan_tokens-stale response subdomain obj members rest p n opens inside earlier wanted has_name
      has_type =
    let p₁ = record p { subdomain_field = absent; type_field = absent; id_keyword_found = false } in
    scan-on response subdomain obj (tokens_of members ++ rest) p p₁ (ground arith)
    ∙ members-stale response subdomain members rest n p₁ wanted
        (record {
          inside = inside;
          earlier = earlier;
          no_id = refl;
          name_settled = refl;
          type_settled = refl;
        })
        refl has_name has_type
