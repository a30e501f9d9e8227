-- ===== src/Examples/Upgrade.antt =====
-- An upgrade whose installation script fails, on concrete inputs: all is put back.
use hik_hcnet_http_bridge.Common.{
  ℕ, zero, suc, ◌++◌, ◌≡◌, refl, true, false, [], ◌∷◌, none, some, arith,
}
use hik_hcnet_http_bridge.Text.{Bytes, codes, equal}
use hik_hcnet_http_bridge.Error.{ok}
use hik_hcnet_http_bridge.Upgrade.World.{
  World, Directory, native_name, managed_name, Registration, on_service,
}
use hik_hcnet_http_bridge.Effect.{
  recovering, ◌>>=◌, lift, unless, pure, look, either, modify, on_part,
}
use hik_hcnet_http_bridge.Upgrade.Services.{StopAnswers, RemoveAnswers, RestoreAnswers, Poll}
use hik_hcnet_http_bridge.Upgrade.Snapshots.{managed_pe}
use hik_hcnet_http_bridge.Upgrade.Transaction.{removed, Preflight, UpgradeAnswers, Verdict, wmain}
use hik_hcnet_http_bridge.Upgrade.Files.{equal_file}
use hik_hcnet_http_bridge.Upgrade.Files.Copies.{equal_file-eq}
use hik_hcnet_http_bridge.Upgrade.Outcome.{Promised, HasRecovery, wmain-Promised}

abbrev old_service : Registration
old_service = record {
  settings = record {
    config = record {
      command = codes "bridge.exe service-run";
      display = codes "Bridge";
      account = codes "LocalSystem";
      group = [];
      dependencies = [];
      type = 16;
      start = 2;
      error = 1;
    };
    delayed = true;
    description = codes "old";
    failures = 1 ∷ 2 ∷ [];
    failure_flag = true;
  };
  running = true;
}

abbrev tree : Directory
tree = (codes "bridge.exe", 1 ∷ []) ∷ []

abbrev new_package : Directory
new_package = (codes "bridge.exe", 2 ∷ []) ∷ []

abbrev start : World
start = record {
  target_directory = some tree;
  backup_directory = none;
  staged_directory = none;
  failed_directory = none;
  native_service = none;
  managed_service = some old_service;
  moved = false;
  installed = false;
}

abbrev stops : StopAnswers
stops = record {
  opened = true;
  queried = true;
  controlled = true;
  polls = Poll.other_state ∷ Poll.arrived ∷ [];
  exited = true;
  runs_on = true;
}

abbrev removes : RemoveAnswers
removes = record {
  stopping = stops;
  opened = true;
  deleted = true;
  polls = Poll.arrived ∷ [];
  gone = false;
}

abbrev restores : RestoreAnswers
restores = record {
  opened = true;
  created = true;
  changed = true;
  delayed_set = true;
  description_set = true;
  failures_set = true;
  failures_behind = λ before given. given;
  flag_set = true;
  started = true;
  polls = Poll.arrived ∷ [];
  runs = false;
}

abbrev zeros : ℕ → Bytes
zeros zero = []
zeros (suc n) = 0 ∷ zeros n

-- The headers of a program of 32 bits that has an entry for the .NET runtime.
abbrev managed_program : Bytes
managed_program =
    (codes "MZ" ++ (zeros 58 ++ 64 ∷ 0 ∷ 0 ∷ 0 ∷ []))
    ++ ((codes "PE" ++ zeros 22) ++ ((11 ∷ 1 ∷ zeros 206) ++ 1 ∷ zeros 7))

managed_program_run : managed_pe managed_program ≡ ok true
unfolding managed_pe
managed_program_run = refl

abbrev passes : Preflight
passes = record {
  admin = true;
  locked = true;
  package_complete = true;
  native_package = true;
  configuration_valid = true;
  version = ok (codes "0.9.1.260922");
  port_valid = true;
  manager_opened = true;
  inspectable = true;
  snapshot = record {
    queried = true;
    stable = true;
    words = codes "bridge.exe" ∷ codes "Service-Run" ∷ [];
    absolute = true;
    link_free = true;
    file_name = codes "HikSdkHttpBridge.exe";
    program = managed_program;
  };
  paths_valid = true;
  no_tasks = true;
  source_link_free = true;
  target_link_free = true;
}

abbrev answers : UpgradeAnswers
answers = record {
  preflight = passes;
  copying = record {
    link_free = λ path. true;
    regular = λ path. true;
    copied = λ path. ok (2 ∷ []);
  };
  staged_valid = true;
  registry_exported = true;
  stopping = stops;
  moves_old = true;
  moves_new = true;
  target_valid = true;
  removing = removes;
  script_service = none;
  script_managed = removed;
  script_files = λ files. (codes "upgrade-install.log", []) ∷ files;
  script_succeeds = false;
  turns = [];
  rollback = record {
    stopping_new = stops;
    removing_new = removes;
    stopping_old = stops;
    sets_failed_aside = true;
    moves_back = true;
    restoring = restores;
  };
}

recovery : HasRecovery new_package answers start tree refl
recovery native_name r e = cc
recovery managed_name r e = record { given = ground (arith, e); replaces = λ before. refl }

wmain-Promised_example :
    (v : Verdict) × ((wmain new_package answers [] start).1 ≡ ok v)
    × Promised new_package answers start v (wmain new_package answers [] start).0
wmain-Promised_example = wmain-Promised new_package answers start tree refl [] recovery

equal_file-eq_example :
    (equal_file (1 ∷ 2 ∷ []) (1 ∷ 3 ∷ []) ≡ true → ◌≡◌ {A = Bytes} (1 ∷ 2 ∷ []) (1 ∷ 3 ∷ []))
    × (◌≡◌ {A = Bytes} (1 ∷ 2 ∷ []) (1 ∷ 3 ∷ []) → equal_file (1 ∷ 2 ∷ []) (1 ∷ 3 ∷ []) ≡ true)
equal_file-eq_example = equal_file-eq (1 ∷ 2 ∷ []) (1 ∷ 3 ∷ [])

all_put_back : (wmain new_package answers [] start).1 ≡ ok Verdict.restored
unfolding wmain equal equal_file recovering ◌>>=◌ lift unless pure look either modify on_service
    on_part
all_put_back = refl
