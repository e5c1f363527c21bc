-- ===== src/Plugins/Cloudflare/Setup.antt =====
-- What the setup of plugins/cloudflare.c leaves for the request.
use inadyn.Prelude.{
  ℕ, ◌-◌, ◌<◌, ◌≡◌, refl, Bool, true, false, Option, some, [], ◌∷◌, ◌==◌, arith, length,
  length-take-le, drop, if◌then◌else◌, Bool-cases, inl, inr, Option-cases,
}
use inadyn.Prelude.Text.{Str, codes, contains, format, strlcpy}
use inadyn.Prelude.Int.{ℤ}
use inadyn.Error.{rc_ok, rc_ddns_rsp_nohost}
use inadyn.World.{Env, World}
use inadyn.Http.{http_init, http_transaction}
use inadyn.Main.Serve.{ddns_http_response_buffer_size}
use inadyn.Ddns.State.{Alias, Info, Ctx, Ready, ddns_get_tcp_force}
use inadyn.Json.{Jsmn, Token}
use inadyn.Plugins.Query.{
  Extracted, extract, query_client, query_trans, json_copy_value, max_id, pack_ids, overwrite,
}
use inadyn.Plugins.Cloudflare.{
  setup, find_zone, name_answered, id_answered, zone_answered, find_name, find_id, json_extract,
  is_record_id, kept_id, settled, star, get_record_type, cloudflare_zone_id_request,
  cloudflare_hostname_name_request_by_id, cloudflare_hostname_id_request_by_name,
}

json_copy_value-length :
    (size : ℕ) (json : Str) (token : Token) (value : Str)
    → json_copy_value size json token ≡ some value
    → length value < size
unfolding json_copy_value
json_copy_value-length size json token value h =
    ground (arith, length-take-le (token.stop - token.start) (drop token.start json))

-- What a query by `extract` copies fits its buffer, where it succeeds.
extract-fits :
    (check : ℤ → ℕ) (search : Str → Option Token × Bool) (size : ℕ) (env : Env) (info : Info)
    (req : Str) (req_len : ℕ) (dest : Str) (w : World)
    → let e = extract check search size env info req req_len dest w in
      e.rc ≡ rc_ok → length e.dest < size
unfolding extract
extract-fits check search size env info req req_len dest w h =
    let (rc, client, w₁) = http_init env (query_client info) (ddns_get_tcp_force info) w in
    let trans₀ = query_trans req req_len [] ddns_http_response_buffer_size in
    let (rc', trans, w₂) = http_transaction env client trans₀ w₁ in
    elim (Option-cases (search trans.rsp_body).0) [
      | inl missing ↦ ground (arith, missing)
      | inr (token, there) ↦ elim (Option-cases (json_copy_value size trans.rsp_body token)) [
        | inl long ↦ ground (arith, there, long)
        | inr (value, fits) ↦
            ground (arith, there, fits, json_copy_value-length size trans.rsp_body token value fits)
      ]
    ]

-- The structure that a setup leaves holds these two identifiers, which fit their buffers.
pub record Prepared (zone host : Str) (r : Ready) : Type 0 where
  pub packed : r.provider_data ≡ some (pack_ids zone host)
  pub zone_fits : length zone < max_id
  pub host_fits : length host < max_id

record_id-fits : (name : Str) → is_record_id name ≡ true → length name < max_id
unfolding is_record_id
record_id-fits name h = ground arith

kept_id-fits :
    (rc : ℕ) (id : Str)
    → (rc ≡ rc_ok → length id < max_id)
    → settled rc ≡ rc_ok
    → length (kept_id rc id) < max_id
kept_id-fits rc id fits h = elim (Bool-cases (rc == rc_ddns_rsp_nohost)) [
  | inl missing ↦ rw missing (omega arith)
  | inr other ↦ rw other (fits (ground arith))
]

name_answered-Prepared :
    (long : Bool) (ctx : Ctx) (alias : Alias) (zone buf : Str) (w : World) (e : Extracted)
    → length zone < max_id
    → length alias.name < max_id
    → (name_answered long ctx alias zone buf w e).rc ≡ rc_ok
    → Prepared zone (kept_id e.rc alias.name) (name_answered long ctx alias zone buf w e)
unfolding name_answered
name_answered-Prepared true ctx alias zone buf w e fits id h = absurd (omega arith)
name_answered-Prepared false ctx alias zone buf w e fits id h = record {
  packed = refl;
  zone_fits = fits;
  host_fits = kept_id-fits e.rc alias.name (λ k. id) h;
}

id_answered-Prepared :
    (long : Bool) (ctx : Ctx) (alias : Alias) (zone buf : Str) (w : World) (e : Extracted)
    → length zone < max_id
    → (e.rc ≡ rc_ok → length e.dest < max_id)
    → (id_answered long ctx alias zone buf w e).rc ≡ rc_ok
    → Prepared zone (kept_id e.rc e.dest) (id_answered long ctx alias zone buf w e)
unfolding id_answered
id_answered-Prepared true ctx alias zone buf w e fits id h = absurd (omega arith)
id_answered-Prepared false ctx alias zone buf w e fits id h = record {
  packed = refl;
  zone_fits = fits;
  host_fits = kept_id-fits e.rc e.dest id h;
}

zone_answered-Prepared :
    (long : Bool) (ctx : Ctx) (alias : Alias) (buf : Str) (w : World) (e : Extracted)
    (find : Str → World → Ready) (host : Str → World → Str)
    → (e.rc ≡ rc_ok → length e.dest < max_id)
    → ((zone : Str) (w' : World)
        → length zone < max_id
        → (find zone w').rc ≡ rc_ok
        → Prepared zone (host zone w') (find zone w'))
    → (zone_answered long ctx alias buf w e find).rc ≡ rc_ok
    → (e.rc ≡ rc_ok)
      × Prepared e.dest (host e.dest e.world) (zone_answered long ctx alias buf w e find)
unfolding zone_answered
zone_answered-Prepared true ctx alias buf w e find host fits finds h = absurd (omega arith)
zone_answered-Prepared false ctx alias buf w e find host fits finds h =
    elim (Bool-cases (e.rc == rc_ok)) [
      | inl ok ↦
          (let found : e.rc ≡ rc_ok = ground arith in
            (found, rw ok (finds e.dest e.world (fits found) (rw ok at h))))
      | inr failed ↦ absurd (ground (arith, failed))
    ]

module _ (jsmn : Jsmn) (env : Env) (ctx : Ctx) (info : Info) (alias : Alias) where
  json_extract-fits :
      (req : Str) (req_len : ℕ) (key dest : Str) (w : World)
      → (json_extract jsmn env info req req_len key dest w).rc ≡ rc_ok
      → length (json_extract jsmn env info req req_len key dest w).dest < max_id
  unfolding json_extract
  json_extract-fits req req_len key dest w h = extract-fits _ _ max_id env info req req_len dest w h

  abbrev zone_request : Str
  zone_request =
      format cloudflare_zone_id_request
        (info.creds.username ∷ info.user_agent ∷ info.creds.password ∷ [])

  abbrev zone_buffer : Str
  zone_buffer = strlcpy ctx.request_buflen zone_request

  -- What the query for the zone answers, from the world `w`.
  abbrev pub zone_answer : World → Extracted
  zone_answer w = json_extract jsmn env info zone_buffer (length zone_request) (codes "id") [] w

  abbrev name_answer : Str → World → Extracted
  name_answer zone w =
      json_extract jsmn env info
        (overwrite
          (strlcpy ctx.request_buflen (
            format cloudflare_hostname_name_request_by_id
              (zone ∷ alias.name ∷ info.user_agent ∷ info.creds.password ∷ [])))
          zone_buffer)
        ctx.request_buflen (codes "name") alias.name w

  abbrev id_answer : Str → World → Extracted
  id_answer zone w =
      json_extract jsmn env info
        (overwrite
          (strlcpy ctx.request_buflen (
            format cloudflare_hostname_id_request_by_name (
              zone
              ∷ get_record_type alias.address
              ∷ star info
              ∷ alias.name
              ∷ info.user_agent
              ∷ info.creds.password
              ∷ [])))
          zone_buffer)
        ctx.request_buflen (codes "id") [] w

  -- The identifier of the record in a zone: the name itself where it is one, else what the query for the
  -- name answers, and an empty text where the query finds no record.
  abbrev pub record_of : Str → World → Str
  record_of zone w =
      if is_record_id alias.name
      then kept_id (name_answer zone w).rc alias.name
      else kept_id (id_answer zone w).rc (id_answer zone w).dest

  find-Prepared :
      (zone : Str) (w : World)
      → length zone < max_id
      → (if is_record_id alias.name
          then find_name jsmn env ctx info alias zone zone_buffer w
          else find_id jsmn env ctx info alias zone zone_buffer w).rc
        ≡ rc_ok
      → Prepared zone (record_of zone w) (
          if is_record_id alias.name
          then find_name jsmn env ctx info alias zone zone_buffer w
          else find_id jsmn env ctx info alias zone zone_buffer w)
  unfolding find_name find_id
  find-Prepared zone w fits h = elim (Bool-cases (is_record_id alias.name)) [
    | inl id ↦ rw id (
        name_answered-Prepared _ ctx alias zone _ w (name_answer zone w) fits
          (record_id-fits alias.name id) (rw id at h))
    | inr plain ↦ rw plain (
        id_answered-Prepared _ ctx alias zone _ w (id_answer zone w) fits
          (json_extract-fits _ _ _ _ _) (rw plain at h))
  ]

  -- A setup that succeeds was answered by the query for the zone, and leaves the identifier of the zone
  -- in that answer, and then that of the record: the name itself where it counts as one, else the one
  -- in the answer to the query for the name, and an empty text where there is no such record. Each
  -- fits its buffer.
  pub setup-Prepared :
      (w : World)
      → (setup jsmn env ctx info alias w).rc ≡ rc_ok
      → ((zone_answer w).rc ≡ rc_ok)
        × Prepared
            (zone_answer w).dest
            (record_of (zone_answer w).dest (zone_answer w).world)
            (setup jsmn env ctx info alias w)
  unfolding setup find_zone
  setup-Prepared w h = elim (Bool-cases (contains info.creds.username (codes "."))) [
    | inl dotted ↦ rw dotted (
        zone_answered-Prepared _ ctx alias _ w (zone_answer w) _ record_of
          (json_extract-fits _ _ _ _ _) find-Prepared (rw dotted at h))
    | inr plain ↦ absurd (omega (arith, rw plain at h))
  ]
