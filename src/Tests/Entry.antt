-- ===== src/Tests/Entry.antt =====
-- Runs of the program's entry.
use inadyn.Prelude.{true, arith, some, refl}
use inadyn.Main.Serve.{Machine, Start, serve}
use inadyn.Main.Restart.{IsWithin, serve-IsWithin}
use inadyn.Tests.Scene.{online, lib, opts, world}
use inadyn.Tests.Config.{setting, file}

abbrev machine : Machine
machine = record {
  env = online;
  lib = lib;
  encode = λ s. s;
  setting = setting;
  memory = λ w. record { context = true; work_buf = true; request_buf = true };
  installs = λ w. true;
  reads = λ w. some (record file { iterations = 3 });
}

abbrev start : Start
start = record { cached = 0; first = true; opts = opts; world = world }

serve-IsWithin_example : IsWithin 3 (serve machine 5 2 start)
serve-IsWithin_example =
    serve-IsWithin machine 5 3 (λ e. ground (arith, e)) (λ w cfg e. ground (arith, e)) 2 start
      (omega arith) refl
