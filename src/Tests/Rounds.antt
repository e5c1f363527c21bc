-- ===== src/Tests/Rounds.antt =====
-- Runs of updates, checks and rounds of the main loop.
use inadyn.Prelude.{◌+◌, ◌<◌, ◌≡◌, ◌≢◌, ◌⊎◌, ◌↔◌, refl, true, false, [], ◌∷◌, arith, All}
use inadyn.Prelude.Text.{codes}
use inadyn.Error.{rc_ok}
use inadyn.Http.{http_init, http_exit, http_transaction}
use inadyn.Cache.{read_one, write_cache_file}
use inadyn.Cache.Laws.{read_one-write_cache_file}
use inadyn.Ddns.Send.{send_update}
use inadyn.Ddns.Send.Laws.{send_update_alias, send_update_closes}
use inadyn.Ddns.Update.{
  update_alias_table, update_one, record_success, run_script, update_aliases, update_providers,
  fake_aliases,
}
use inadyn.Ddns.Update.Fake.{fake_aliases_failure, IsStuck}
use inadyn.Ddns.Update.Real.{IsDone, update_aliases-IsDone}
use inadyn.Ddns.Update.Remember.{verdict, provider_rcs, remember-eq-verdict}
use inadyn.Ddns.Update.Healthy.{IsSettled, all_due, update_alias_table-IsSettled}
use inadyn.Ddns.Schedule.{check_alias_update_table, check_alias}
use inadyn.Ddns.Schedule.Laws.{check_alias_lem}
use inadyn.Ddns.Lost.{next_check, failed_setup_is_lost}
use inadyn.Ddns.Loop.{check_address}
use inadyn.Ddns.Loop.Survival.{IsReported, check_address-IsReported}
use inadyn.Tests.Scene.{
  unprepared, failing_setup, online, offline, lib, opts, info, ctx, quiet, forced, world, accepting,
  refusing, pass, table, provider, daemon,
}

send_update_alias_example :
    let s = send_update online accepting ctx info forced 0 world in
    (s.changed ≡ 1)
    × (s.alias.force_addr_update ≡ false)
    × (s.alias ≡ record forced { force_addr_update = s.alias.force_addr_update })
unfolding send_update http_init http_exit http_transaction
send_update_alias_example = send_update_alias online accepting ctx info forced 0 world

send_update_closes_example :
    (send_update online refusing ctx info forced 0 world).info.server.initialized ≡ false
send_update_closes_example = send_update_closes online refusing ctx info forced 0 world refl

read_one-write_cache_file_example :
    (read_one online
      (codes "/var/cache/inadyn")
      quiet
      (codes "default@example")
      false
      (write_cache_file online
        (codes "/var/cache/inadyn")
        forced
        (codes "default@example")
        world).1).0
    ≡ record quiet { address = codes "8.8.8.8"; last_update = 1000 }
read_one-write_cache_file_example =
    read_one-write_cache_file online (codes "/var/cache/inadyn") forced quiet
      (codes "default@example") false world refl refl
      (record { fits = omega arith; one_line = ground arith })

fake_aliases_failure_example :
    IsStuck (forced ∷ quiet ∷ []) (fake_aliases offline accepting (forced ∷ quiet ∷ []) pass).0
unfolding fake_aliases send_update http_init
fake_aliases_failure_example =
    fake_aliases_failure offline accepting (forced ∷ quiet ∷ []) pass refl (λ e. ground (arith, e))

update_aliases-IsDone_example :
    All IsDone (update_aliases online opts accepting (forced ∷ quiet ∷ []) pass).0
unfolding update_aliases update_one record_success run_script send_update http_init http_transaction
update_aliases-IsDone_example =
    update_aliases-IsDone online opts accepting (forced ∷ quiet ∷ []) pass refl refl

remember-eq-verdict_example :
    (update_providers offline opts (provider ∷ []) table).1.remember
    ≡ verdict (provider_rcs offline opts (provider ∷ []) table)
remember-eq-verdict_example = remember-eq-verdict offline opts (provider ∷ []) table refl

check_alias_lem_example :
    (((check_alias 1000 ctx quiet).update_required ≡ true)
      ↔ ((false ≡ true) ⊎ (false ≡ true) ⊎ (900 + 2592000 < 1000)))
    × (check_alias 1000 ctx quiet
        ≡ record quiet { update_required = (check_alias 1000 ctx quiet).update_required })
check_alias_lem_example = check_alias_lem 1000 ctx quiet

check_address-IsReported_example : IsReported (check_address online lib opts daemon).0
check_address-IsReported_example = check_address-IsReported online lib opts daemon

failed_setup_is_lost_example :
    let s = send_update online unprepared ctx info quiet 0 world in
    (s.rc ≢ rc_ok)
    × (s.alias ≡ quiet)
    × ((next_check (codes "8.8.8.8") 1000 ctx s.alias).update_required ≡ false)
failed_setup_is_lost_example =
    failed_setup_is_lost online unprepared failing_setup ctx info quiet 0 world 1000 refl
      (ground arith)

update_alias_table-IsSettled_example :
    let (ps₁, w₁) = check_alias_update_table online ctx (provider ∷ []) world in
    let (ps₂, t) = update_alias_table online opts ctx ps₁ w₁ in
    All (λ p. All IsSettled p.aliases) ps₂
    × (t.rc ≡ 0)
    × (t.remember ≡ 0)
    × (t.changed ≡ all_due ps₁)
update_alias_table-IsSettled_example =
    update_alias_table-IsSettled online opts ctx (provider ∷ []) world
      (record { opens = λ h. refl; sends = λ h. refl; receives = λ h. refl }) refl refl
      (
        record {
          prepares = λ f c i a w e. absurd (ground (arith, e));
          composes = λ c i a. refl;
          accepts = λ t i a. refl;
        },
        tt,
      )
