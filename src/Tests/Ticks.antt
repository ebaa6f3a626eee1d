-- ===== src/Tests/Ticks.antt =====
-- One tick of lifecycle.go with a new release.
use dewy.Common.{ℕ, suc, true, false, none, some, [], ◌∷◌, codes}
use dewy.Lifecycle.Outside.{server, Config, CurrentResponse, found, Cache, Outside, Dewy}
use dewy.Lifecycle.Phases.{run}
use dewy.Lifecycle.Outcome.{Outcome}
use dewy.Lifecycle.Kept.{Kept}
use dewy.Lifecycle.Failures.{Ends, run-Ends}

-- A cache that holds nothing and takes everything.
abbrev empty_cache : Cache ℕ
empty_cache = record {
  read = λ key c. (none, c);
  list = λ c. some [];
  write = λ key value c. (suc c, true);
}

abbrev release : CurrentResponse
release = record {
  id = codes "7";
  tag = codes "v1.2.3";
  artifact_url = codes "ghr://linyows/app/app.tar.gz?x";
  slot = [];
}

abbrev world : Outside
world = record {
  current = λ t. found release;
  can_make_artifact = λ t url. true;
  artifact_writes = λ t url. (codes "bytes" ∷ [], true);
  release_dir = λ t. codes "releases/20260101T000000Z";
  can_make_release = λ t. true;
  can_extract = λ t key. true;
  can_make_link = λ t. true;
  can_rename_link = λ t. true;
  can_start = λ t. true;
  can_signal = λ t. true;
  can_run_hook = λ t. true;
}

abbrev server_config : Config
server_config = record {
  command = server;
  slot = [];
  before_deploy_hook = codes "true";
  after_deploy_hook = [];
  has_ports = true;
  disable_report = false;
  telemetry_on = true;
}

abbrev booting : Dewy ℕ
booting = record {
  cache = 0;
  is_server_running = false;
  c_ver = [];
  artifact = none;
  current = none;
  trace = [];
}

run-Ends_example :
    Outcome
      (Ends empty_cache world server_config booting)
      (Kept booting)
      (run empty_cache world server_config booting)
run-Ends_example = run-Ends empty_cache world server_config booting
