-- ===== src/Lifecycle/Outside.antt =====
-- What a tick of dewy.go works with: the response of the registry, the cache, the answers of the
-- world, and what the tick does to it.
use dewy.Common.{ℕ}
use dewy.Container.Deploy.Defs.{DeployError}
use dewy.Common.{
  Bool, Option, List, ◌++◌, [], ◌∷◌, Text, ◌==◌, ltb, false, text_eq, ◌||◌, if◌then◌else◌, some,
  none, ◌+◌, length,
}

pub data Command : Type 0 where
  server assets container : Command

pub record Config : Type 0 where
  pub command : Command
  pub slot : Text
  pub before_deploy_hook : Text
  pub after_deploy_hook : Text
  pub has_ports : Bool
  pub disable_report : Bool
  pub telemetry_on : Bool

-- `registry.CurrentResponse`
pub record CurrentResponse : Type 0 where
  pub id : Text
  pub tag : Text
  pub artifact_url : Text
  pub slot : Text

-- The results of `registry.Current`; the age of the release, in nanoseconds and 0 for
-- one that is to come, where it is known.
pub data CurrentAnswer : Type 0 where
  found : CurrentResponse → CurrentAnswer
  artifact_not_found : Option ℕ → CurrentAnswer
  current_failed : CurrentAnswer

-- time.Minute * 30
abbrev pub default_artifact_grace_period : ℕ
default_artifact_grace_period = 1800000000000

unfoldable pub is_within_grace_period : Option ℕ → ℕ → Bool
is_within_grace_period none grace_period = false
is_within_grace_period (some age) grace_period =
    if grace_period == 0 then false else ltb age grace_period

-- `SlotMatcher.Matches`
unfoldable pub matches : Text → Text → Bool
matches expected actual = text_eq expected [] || text_eq expected actual

-- `limitedWriter`, fed by the writes of a download: what was written, or `none` at the limit.
unfoldable pub limited_writes : ℕ → Text → List Text → Option Text
limited_writes limit written [] = some written
limited_writes limit written (p ∷ ps) =
    if ltb limit (length written + length p) then none else limited_writes limit (written ++ p) ps

abbrev pub max_artifact_size : ℕ
max_artifact_size = 536870912

-- The interface `cache.Cache`; a `none` and a `false` are errors. A read may fill the local stage.
pub record Cache (C : Type 0) : Type 0 where
  pub read : Text → C → Option Text × C
  pub list : C → Option (List Text)
  pub write : Text → Text → C → C × Bool

pub data Notice : Type 0 where
  hook_result : Text → Notice
  downloaded : Text → Notice
  extracted : Text → Notice
  restarted started : Text → Bool → Notice
  pulled : Text → Notice
  -- The replicas that were deployed, those that were asked for, and the version.
  container_deployed : ℕ → ℕ → Text → Notice

-- What a tick does to the world, with the outcome where there is one.
pub data Event : Type 0 where
  ask_registry : Event
  new_artifact : Text → Bool → Event
  download : Text → Bool → Event
  hook : Text → Event
  notify : Notice → Event
  make_release : Text → Bool → Event
  extract : Text → Text → Bool → Event
  remove_link : Event
  make_link : Text → Bool → Event
  rename_link : Bool → Event
  new_starter : Bool → Event
  signal_restart : Bool → Event
  count_restart : Event
  report : Text → Text → Command → Event
  keep_releases : Event
  record_deployment : Bool → Event
  new_runtime : Bool → Event
  remove_exited : Text → Event
  clean_images : Text → Event

abbrev pub Trace : Type 0
Trace = List Event

-- The answers of the world, each to a request that follows a trace.
pub record Outside : Type 0 where
  pub current : Trace → CurrentAnswer
  pub can_make_artifact : Trace → Text → Bool
  -- The writes of the download, and whether it ends without an error of its own.
  pub artifact_writes : Trace → Text → List Text × Bool
  -- `time.Now().UTC().Format(releaseDir)`, below the directory of the releases.
  pub release_dir : Trace → Text
  pub can_make_release : Trace → Bool
  pub can_extract : Trace → Text → Bool
  pub can_make_link : Trace → Bool
  pub can_rename_link : Trace → Bool
  pub can_start : Trace → Bool
  pub can_signal : Trace → Bool
  -- Whether the shell is found, so that a hook has a result.
  pub can_run_hook : Trace → Bool

-- The state that a tick changes; `current` is where the symlink points.
pub record Dewy (C : Type 0) : Type 0 where
  pub cache : C
  pub is_server_running : Bool
  pub c_ver : Text
  -- `d.artifact`, by its URL.
  pub artifact : Option Text
  pub current : Option Text
  pub trace : Trace

pub data Error : Type 0 where
  registry_error list_error write_error read_error artifact_error download_error : Error
  release_error extract_error link_error server_error : Error
  runtime_error pull_error ports_error : Error
  deploy_error : DeployError → Error

pub data Result (A : Type 0) : Type 0 where
  ok : A → Result A
  err : Error → Result A

-- The next phase, or the return of the error.
unfoldable pub and_then : {A B S : Type 0} → Result A × S → (A → S → Result B × S) → Result B × S
and_then (err e, s) f = (err e, s)
and_then (ok a, s) f = f a s
