-- ===== src/Plugins/Protocol/Closes.antt =====
-- That the setups of four plugins close each connection that they open (plugins/dnspod.c, freedns.c,
-- yandex.c, cloudxns.c).
use inadyn.Prelude.{
  ℕ, ◌≡◌, ◌∙◌, ap, refl, Bool, true, false, arith, Option-cases, inl, inr, if◌then◌else◌, ◌==◌,
}
use inadyn.Prelude.Text.{Str, codes, strstr, strlcpy}
use inadyn.Error.{rc_ok}
use inadyn.World.{Env, World, asked_time, emit}
use inadyn.Http.{Trans}
use inadyn.Ddns.State.{Alias, Info, Ctx, Ready, server_name_len}
use inadyn.Json.{Jsmn}
use inadyn.Plugins.Query.Closes.{still_open, query-closes}
use inadyn.Plugins.Digest.{Md5}
use inadyn.Plugins.Dnspod
use inadyn.Plugins.Freedns
use inadyn.Plugins.Freedns.{Sha1}
use inadyn.Plugins.Yandex
use inadyn.Plugins.Cloudxns
use inadyn.Plugins.Cloudxns.{Calendar, fault_if}

if-eq {ℓ κ} :
    {A : Type ℓ} {B : Type κ} (f : A → B) (b : Bool) (x y : A) (z : B)
    → f x ≡ z
    → f y ≡ z
    → f (if b then x else y) ≡ z
if-eq f true x y z p q = p
if-eq f false x y z p q = q

of_answer-world :
    (buf : Str) (answer : ℕ × Trans × World) → (Dnspod.of_answer buf answer).world ≡ answer.2
unfolding Dnspod.of_answer
of_answer-world buf (rc, trans, w) = ground arith

after_fetch-world :
    (ctx : Ctx) (info : Info) (alias : Alias) (domain prefix : Str) (f : Dnspod.Fetched)
    → (Dnspod.after_fetch ctx info alias domain prefix f).world ≡ f.world
unfolding Dnspod.after_fetch
after_fetch-world ctx info alias domain prefix f = ground arith

after_keys-world :
    (info : Info) (alias : Alias) (k : Freedns.Keys)
    → (Freedns.after_keys info alias k).world ≡ k.world
unfolding Freedns.after_keys
after_keys-world info alias k = ground arith

after_query-world :
    (jsmn : Jsmn) (info : Info) (alias : Alias) (url buf : Str) (answer : ℕ × Trans × World)
    → (Yandex.after_query jsmn info alias url buf answer).world ≡ answer.2
unfolding Yandex.after_query
after_query-world jsmn info alias url buf (rc, trans, w) = ground arith

fault_if-history : (b : Bool) (w : World) → (fault_if b w).history ≡ w.history
fault_if-history true w = refl
fault_if-history false w = refl

prepare-history :
    (md5 : Md5) (ctx : Ctx) (info : Info) (alias : Alias) (date : Str) (domain_id record_id : ℕ)
    (prefix : Str) (a : Cloudxns.Answer)
    → (Cloudxns.prepare md5 ctx info alias date domain_id record_id prefix a).world.history
      ≡ a.world.history
unfolding Cloudxns.prepare
prepare-history md5 ctx info alias date domain_id record_id prefix a = fault_if-history _ a.world

after_records-history :
    (md5 : Md5) (ctx : Ctx) (info : Info) (alias : Alias) (date : Str) (domain_id : ℕ)
    (domain : Str) (b : Cloudxns.Answer)
    → (Cloudxns.after_records md5 ctx info alias date domain_id domain b).world.history
      ≡ b.world.history
unfolding Cloudxns.after_records
after_records-history md5 ctx info alias date domain_id domain b =
    let (prefix, unset) = Cloudxns.prefix_of alias.name domain in
    elim (Option-cases (strstr b.body (codes "["))) [
      | inl e ↦ ground (arith, e)
      | inr (tmp, e) ↦ elim (Option-cases (Cloudxns.find_record prefix (Cloudxns.objects tmp))) [
        | inl n ↦ ground (arith, e, n, fault_if-history unset b.world)
        | inr (id, n) ↦ ground (
          arith,
          e,
          n,
          fault_if-history unset b.world,
          prepare-history md5 ctx info alias date domain_id id prefix
              (record b { world = fault_if unset b.world }),
        )
      ]
    ]

module _ (env : Env) (ctx : Ctx) (info : Info) (alias : Alias) where
  open_worlds : (w w' : World) → w ≡ w' → still_open env w.history ≡ still_open env w'.history
  open_worlds w w' h = ap (λ v. still_open env v.history) h

  unless_long-closes :
      (long : Bool) (w : World) (f : Dnspod.Fetched)
      → still_open env f.world.history ≡ still_open env w.history
      → still_open env (Dnspod.unless_long long ctx w f).world.history ≡ still_open env w.history
  unfolding Dnspod.unless_long
  unless_long-closes true w f h = refl
  unless_long-closes false w f h = h

  dnspod_fetch-closes :
      (domain prefix : Str) (w : World)
      → still_open env (Dnspod.fetch_record_id env ctx info alias domain prefix w).world.history
        ≡ still_open env w.history
  unfolding Dnspod.fetch_record_id
  dnspod_fetch-closes domain prefix w = unless_long-closes _ w _ (
      open_worlds _ _ (of_answer-world _ _)
      ∙ query-closes env _ info _ _ ctx.work_buf ctx.work_buflen w)

  dnspod-closes :
      (w : World)
      → still_open env (Dnspod.setup env ctx info alias w).world.history ≡ still_open env w.history
  unfolding Dnspod.setup
  dnspod-closes w = elim (Option-cases (Dnspod.split_name (strlcpy server_name_len alias.name))) [
    | inl e ↦ ground (arith, e)
    | inr ((domain, prefix), e) ↦
        rw (e, Dnspod.setup)
          (open_worlds _ _ (after_fetch-world ctx info alias domain prefix _)
            ∙ dnspod_fetch-closes domain prefix w)
  ]

  freedns_fetch-closes :
      (sha1 : Sha1) (w : World)
      → still_open env (Freedns.fetch_keys sha1 env ctx info w).world.history
        ≡ still_open env w.history
  unfolding Freedns.fetch_keys
  freedns_fetch-closes sha1 w = query-closes env _ info _ _ ctx.work_buf ctx.work_buflen w

  freedns-closes :
      (sha1 : Sha1) (w : World)
      → still_open env (Freedns.setup sha1 env ctx info alias w).world.history
        ≡ still_open env w.history
  unfolding Freedns.setup
  freedns-closes sha1 w =
      open_worlds _ _ (after_keys-world info alias _) ∙ freedns_fetch-closes sha1 w

  yandex-closes :
      (jsmn : Jsmn) (w : World)
      → still_open env (Yandex.setup jsmn env ctx info alias w).world.history
        ≡ still_open env w.history
  unfolding Yandex.setup
  yandex-closes jsmn w =
      if-eq (λ (r : Ready). still_open env r.world.history) (env.ssl_open w.history == rc_ok) _ _ _
        (open_worlds _ _ (after_query-world jsmn info alias _ _ _)
          ∙ query-closes env _ info _ _ ctx.work_buf ctx.work_buflen w)
        (query-closes env _ info _ _ ctx.work_buf ctx.work_buflen w)

  http_send-closes :
      (work_buf req : Str) (w : World)
      → still_open env (Cloudxns.http_send env ctx info work_buf req w).world.history
        ≡ still_open env w.history
  unfolding Cloudxns.http_send
  http_send-closes work_buf req w = query-closes env _ info _ _ work_buf ctx.work_buflen w

  find_host-closes :
      (md5 : Md5) (date : Str) (domain_id : ℕ) (domain : Str) (a : Cloudxns.Answer)
      → still_open env
          (Cloudxns.find_host md5 env ctx info alias date domain_id domain a).world.history
        ≡ still_open env a.world.history
  unfolding Cloudxns.find_host
  find_host-closes md5 date domain_id domain a =
      ap (still_open env) (after_records-history md5 ctx info alias date domain_id domain _)
      ∙ http_send-closes a.work_buf _ _
      ∙ ap (still_open env) (fault_if-history _ a.world)

  after_domains-closes :
      (md5 : Md5) (date : Str) (a : Cloudxns.Answer)
      → still_open env (Cloudxns.after_domains md5 env ctx info alias date a).world.history
        ≡ still_open env a.world.history
  unfolding Cloudxns.after_domains
  after_domains-closes md5 date a = elim (Option-cases (strstr a.body (codes "["))) [
    | inl e ↦ ground (arith, e)
    | inr (tmp, e) ↦ elim (Option-cases (Cloudxns.find_domain alias.name (Cloudxns.objects tmp))) [
      | inl n ↦ ground (arith, e, n)
      | inr ((id, domain), n) ↦ ground (arith, e, n, find_host-closes md5 date id domain a)
    ]
  ]

  cloudxns-closes :
      (md5 : Md5) (calendar : Calendar) (w : World)
      → still_open env (Cloudxns.setup md5 calendar env ctx info alias w).world.history
        ≡ still_open env w.history
  unfolding Cloudxns.setup still_open
  cloudxns-closes md5 calendar w =
      after_domains-closes md5 _ _
      ∙ http_send-closes ctx.work_buf _ _
      ∙ ap (still_open env) (fault_if-history _ (emit asked_time w))

  -- The setups of these four leave as many connections open as there were, on every path.
  pub setup-closes :
      (sha1 : Sha1) (md5 : Md5) (calendar : Calendar) (jsmn : Jsmn) (w : World)
      → (still_open env (Dnspod.setup env ctx info alias w).world.history
          ≡ still_open env w.history)
        × (still_open env (Freedns.setup sha1 env ctx info alias w).world.history
            ≡ still_open env w.history)
        × (still_open env (Yandex.setup jsmn env ctx info alias w).world.history
            ≡ still_open env w.history)
        × (still_open env (Cloudxns.setup md5 calendar env ctx info alias w).world.history
            ≡ still_open env w.history)
  setup-closes sha1 md5 calendar jsmn w =
      (dnspod-closes w, freedns-closes sha1 w, yandex-closes jsmn w, cloudxns-closes md5 calendar w)
