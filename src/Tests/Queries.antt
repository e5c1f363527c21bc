-- ===== src/Tests/Queries.antt =====
-- Runs of the ways to ask for an address, and whole rounds.
use inadyn.Prelude.{
  ℕ, ◌+◌, ◌<◌, ◌≤◌, ◌≡◌, ◌≢◌, ◌⊎◌, ◌^◌, ◌*◌, ◌/◌, refl, some, none, [], ◌∷◌, arith,
}
use inadyn.Prelude.Text.{codes, contains}
use inadyn.Error.{rc_ok, rc_restart}
use inadyn.World.{Env, Signal}
use inadyn.Http.{c_string, http_init, http_exit}
use inadyn.Ddns.Address.{
  is_address_valid, parse_my_address, parse_ipv4_address, parse_ipv6_address, search_address,
  strpbrk, span, behind, is_excepted, is_local_ipv4, accept4, accept6, candidate4, candidate6,
}
use inadyn.Ddns.Address.Runs.{runs}
use inadyn.Ddns.Address.Find.{first_some, parse_my_address-eq-first}
use inadyn.Ddns.Address.Policy.{is_address_valid-ipv4}
use inadyn.Ddns.Query.{
  Found, shell_transaction, get_address_remote, server_transaction, found_in, get_address_cmd,
  get_address_iface,
}
use inadyn.Ddns.Query.Laws.{IsValid}
use inadyn.Ddns.Backend.{ask_remote, retry_default, get_address_backend, get_address}
use inadyn.Ddns.Backend.Laws.{get_address_backend-IsValid}
use inadyn.Ddns.Schedule.{
  check_alias_update_table, compare_addresses, compare_address, check_aliases, check_alias,
}
use inadyn.Ddns.Loop.{
  Daemon, Next, stop, again, main_round, run, check_address, after_check, count_iteration,
  test_restart, filter_error, check_error, wait_and_obey, obey,
}
use inadyn.Ddns.Command.{wait_for_cmd, wait_rounds, deliver, handle_all, unix_signal_handler}
use inadyn.Ddns.Update.{
  update_alias_table, update_providers, update_aliases, update_one, remember_rc,
}
use inadyn.Ddns.Loop.Laws.{successes, run_counts}
use inadyn.Ddns.Loop.Survival.{main_round-ends}
use inadyn.Tests.Scene.{
  online, offline, lib, lib-NeedsTwoBytes, opts, info, ctx, quiet, provider, daemon, asked,
}

parse_my_address-eq-first_example :
    parse_my_address lib opts (codes "ip: 8.8.8.8!")
    ≡ elim (first_some (candidate6 lib opts) (runs accept6 (codes "ip: 8.8.8.8!"))) [
      | some address ↦ some address
      | none ↦ first_some (candidate4 lib opts) (runs accept4 (codes "ip: 8.8.8.8!"))
    ]
parse_my_address-eq-first_example =
    parse_my_address-eq-first lib opts lib-NeedsTwoBytes (codes "ip: 8.8.8.8!")

is_address_valid-ipv4_example :
    (addr : ℕ) × (lib.pton4 (codes "8.8.8.8") ≡ some addr)
    × (2 ^ 24 ≤ addr)
    × (addr / 2 ^ 29 ≢ 7)
    × ((addr < 127 * 2 ^ 24) ⊎ (128 * 2 ^ 24 ≤ addr))
    × ((addr < 43518 * 2 ^ 16) ⊎ (43519 * 2 ^ 16 ≤ addr))
unfolding is_address_valid is_excepted is_local_ipv4
is_address_valid-ipv4_example = is_address_valid-ipv4 lib opts refl (codes "8.8.8.8") refl

-- The address comes from a command that prints it.
abbrev commanded : Found
commanded = record asked { info = record info { checkip_cmd = codes "curl" } }

get_address_backend-IsValid_example :
    IsValid lib opts (get_address_backend online lib opts commanded)
unfolding get_address_backend get_address_cmd shell_transaction found_in parse_my_address
    parse_ipv4_address parse_ipv6_address search_address strpbrk span behind candidate4 candidate6
    is_address_valid is_excepted is_local_ipv4 c_string
get_address_backend-IsValid_example = get_address_backend-IsValid online lib opts commanded refl

-- A daemon with one alias that is up to date, and the state that one round leaves it in.
abbrev idle : Daemon
idle = record daemon {
  ctx = record ctx { update_period = 1; normal_update_period_sec = 1 };
  providers = record provider { aliases = quiet ∷ [] } ∷ [];
}

abbrev state_of : Next → Daemon
state_of (stop rc d) = d
state_of (again d) = d

run_counts_example :
    let d = state_of (run offline lib opts 1 idle) in
    (d.ctx.num_iterations ≡ 0 + successes offline lib opts 1 idle)
    × (0 + successes offline lib opts 1 idle < 2)
unfolding run main_round after_check count_iteration test_restart filter_error check_error
    wait_and_obey obey wait_for_cmd wait_rounds deliver handle_all unix_signal_handler check_address
    get_address compare_addresses compare_address check_alias_update_table check_aliases check_alias
    update_alias_table update_providers update_aliases update_one remember_rc get_address_backend
    ask_remote retry_default get_address_remote server_transaction get_address_cmd get_address_iface
    http_init http_exit contains
run_counts_example =
    run_counts offline lib opts 1 idle (state_of (run offline lib opts 1 idle)) (ground arith)
      (omega arith) refl

-- The same daemon, told to stop by a signal.
abbrev told : Env
told = record offline { signals = λ h. Signal.sigterm ∷ [] }

main_round-ends_example : (rc_ok ≡ rc_ok) ⊎ (rc_ok ≡ rc_restart)
unfolding run main_round after_check count_iteration test_restart filter_error check_error
    wait_and_obey obey wait_for_cmd wait_rounds deliver handle_all unix_signal_handler check_address
    get_address compare_addresses compare_address check_alias_update_table check_aliases check_alias
    update_alias_table update_providers update_aliases update_one remember_rc get_address_backend
    ask_remote retry_default get_address_remote server_transaction get_address_cmd get_address_iface
    http_init http_exit contains
main_round-ends_example =
    main_round-ends told lib opts idle rc_ok (state_of (main_round told lib opts idle)) refl refl
