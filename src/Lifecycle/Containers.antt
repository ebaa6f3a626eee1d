-- ===== src/Lifecycle/Containers.antt =====
-- One tick of the container command: the container phases of lifecycle.go, container_deploy.go, and
-- `RunContainer` of dewy.go.
pub mod Kept
pub mod Deployed
pub mod Ends
use dewy.Common.{
  ℕ, zero, suc, ◌+◌, ◌-◌, ◌*◌, ◌/◌, ◌%◌, ◌^◌, ◌≤◌, ◌<◌, Ordering, lt, eq, gt, ◌≡◌, refl, sym, ap,
  ◌∙◌, ◌≢◌, ◌↔◌, ◌⊎◌, inl, inr, Bool, true, false, not, ◌&&◌, ◌||◌, Option, none, some, List, [],
  ◌∷◌, ◌++◌, append_assoc, append-nil, map, arith, ltb, leb, ◌==◌, if◌then◌else◌, Bool-cases,
  Option-cases, &&-true, ltb→lt, lt→ltb, eq_of_==, ==-refl, length, get_elem?, take, drop,
  length-append, take-append-drop, length-drop, any_of, all_of, All, All-append, All-map,
  All-weaken, All-flat_map, In, In-append_left, In-append_right, In-append-cases, All-at, Text,
  codes, text_eq, has_prefix, has_suffix, trim_prefix, contains, to_lower, split, eq_of_text_eq,
  text_eq_refl, text_eq_iff, has_prefix-drop, has_prefix-append, ℤ, pos, negsuc, max_int, pos_part,
  neg_part, int_sub, sign, int_cmp, ◌>>=◌, ◌>>◌, Returns, Returns-some, Returns-bind, bind_of_some,
}
use dewy.Lifecycle.Outside.{
  Config, CurrentResponse, CurrentAnswer, ask_registry, found, artifact_not_found, current_failed,
  matches, Cache, Outside, Dewy, Trace, Event, download, new_runtime, remove_exited, clean_images,
  notify, pulled, container_deployed, registry_error, runtime_error, pull_error, ports_error,
  deploy_error, Error, Result, ok, err, and_then,
}
use dewy.Lifecycle.Phases.{
  IsDone, done, emit, exec_hook, make_artifact, report_deployment, record_if,
}
use dewy.Lifecycle.AppName.{app_name}
use dewy.Lifecycle.Keys.{is_empty}
use dewy.Container.Deploy.Defs.{
  PortMapping, RollingDeployOptions, DeployReport, History, Environment, State,
}
use dewy.Container.Deploy.Defs as Deploy
use dewy.Container.Ports.{resolve_port_mappings}
use dewy.Container.Stop.{stop_managed_containers}
use dewy.Proxy.{Proxies}
use dewy.Proxy.Updater.{proxy_backend_updater}

-- `Config.Container`, which is set for this command, and `Config.Registry`.
pub record ContainerConfig : Type 0 where
  pub name : Text
  pub registry : Text
  pub replicas : ℤ
  pub port_mappings : List PortMapping
  pub health_path : Text

-- The answers of the container CLI, each to a request that follows a trace and the CLI's history.
pub record Runtimes : Type 0 where
  -- `container.New`
  pub can_make_runtime : Trace → Bool
  -- `GetRunningContainerWithImage`, with the empty ID for none; `none` is an error.
  pub running_with_image : History → Text → Text → Option Text
  -- `Pull`, behind `Artifact.Download`.
  pub can_pull : Trace → Text → Bool
  -- `GetImageExposedPorts`
  pub exposed_ports : History → Text → Option (List ℕ)
  -- The CLI for the containers of one image, one name and one version.
  pub environment : Text → Text → Text → Environment

-- The state of the tick: that of the daemon, and what the CLI was asked for with the proxies.
pub record Daemon (C : Type 0) : Type 0 where
  pub dewy : Dewy C
  pub cli : State Proxies
  -- Whether `d.containerRuntime` is set.
  pub has_runtime : Bool

-- `containerState`
pub record ContainerState : Type 0 where
  pub image_ref : Text
  pub app_name : Text
  pub skip : Bool

-- Whether `createHealthCheckFunc` gives a health check.
unfoldable pub has_health_check : Text → List PortMapping → Bool
has_health_check [] mappings = false
has_health_check (c ∷ path) [] = false
has_health_check (c ∷ path) (m ∷ mappings) = true

-- Whether the ID that the CLI found is one.
unfoldable pub is_running : Option Text → Bool
unfolding is_empty
is_running none = false
is_running (some id) = not (is_empty id)

-- `totalReplicas`
unfoldable pub total_replicas : ℤ → ℕ
total_replicas (pos zero) = 1
total_replicas (pos (suc n)) = suc n
total_replicas (negsuc n) = 1

module _ {C : Type 0} (cache : Cache C) (outside : Outside) (config : Config) (runtimes : Runtimes)
    (settings : ContainerConfig) where
  abbrev Phase : Type 0 → Type 0
  Phase A = Result A × Daemon C

  unfoldable pub on_dewy : (Dewy C → Dewy C) → Daemon C → Daemon C
  on_dewy f s = record s { dewy = f s.dewy }

  unfoldable pub log : Event → Daemon C → Daemon C
  unfolding on_dewy
  log e = on_dewy (emit cache outside config e)

  unfoldable pub resolve_container_answer :
      CurrentAnswer → Daemon C → Phase (Option CurrentResponse)
  resolve_container_answer (artifact_not_found age) s = (err registry_error, s)
  resolve_container_answer current_failed s = (err registry_error, s)
  resolve_container_answer (found res) s =
      if matches config.slot res.slot then (ok (some res), s) else (ok none, s)

  unfoldable pub resolve_container_current : Daemon C → Phase (Option CurrentResponse)
  resolve_container_current s =
      resolve_container_answer (outside.current s.dewy.trace) (log ask_registry s)

  abbrev pub image_ref_of : CurrentResponse → Text
  image_ref_of res = trim_prefix res.artifact_url (codes "img://")

  abbrev pub own_name : Text
  own_name = app_name settings.name settings.registry

  -- An error of the search for a running container is passed over.
  unfoldable pub resolve_container_state : CurrentResponse → Daemon C → Phase ContainerState
  resolve_container_state res s =
      let made = runtimes.can_make_runtime s.dewy.trace in
      let s' = log (new_runtime made) s in
      let running = runtimes.running_with_image s.cli.history (image_ref_of res) own_name in
      if made
      then (
        ok (record {
          image_ref = image_ref_of res;
          app_name = own_name;
          skip = is_running running;
        }),
        record s' { has_runtime = true },
      )
      else (err runtime_error, s')

  -- `artifact.Download` with the runtime as puller; the artifact is given up however it ends.
  unfoldable pub end_pull : Text → Text → Bool → Daemon C → Phase IsDone
  end_pull tag url pulled_ s =
      let s' =
        on_dewy
          (λ d. record (emit cache outside config (download url pulled_) d) { artifact = none })
          s in
      if pulled_ then (ok done, log (notify (pulled tag)) s') else (err pull_error, s')

  unfoldable pub with_artifact : Text → Result Text × Dewy C → Daemon C → Phase IsDone
  with_artifact tag (err e, d) s = (err e, record s { dewy = d })
  with_artifact tag (ok url, d) s =
      end_pull tag url (runtimes.can_pull d.trace url) (record s { dewy = d })

  unfoldable pub pull_container_image : CurrentResponse → Daemon C → Phase IsDone
  pull_container_image res s =
      with_artifact res.tag
        (make_artifact cache outside config res.artifact_url s.dewy.artifact s.dewy) s

  -- `deployContainer` once `Deploy` has returned: the exited containers are removed, and an error of
  -- that is passed over.
  unfoldable pub end_deploy : Deploy.Result DeployReport × State Proxies → Daemon C → Phase ℕ
  end_deploy (Deploy.err e, cli) s = (err (deploy_error e), record s { cli = cli })
  end_deploy (Deploy.ok report, cli) s =
      (ok (length report.results), log (remove_exited own_name) (record s { cli = cli }))

  -- The CLI for the image of a response, and the options of its deployment.
  abbrev pub environment_of : CurrentResponse → Environment
  environment_of res = runtimes.environment (image_ref_of res) own_name res.tag

  abbrev pub options_of : List PortMapping → RollingDeployOptions
  options_of mappings = record {
    replicas = settings.replicas;
    port_mappings = mappings;
    health_check = has_health_check settings.health_path mappings;
  }

  unfoldable pub deploy_resolved : CurrentResponse → Option (List PortMapping) → Daemon C → Phase ℕ
  deploy_resolved res none s = (err ports_error, s)
  deploy_resolved res (some mappings) s =
      end_deploy
        (Deploy.deploy (environment_of res) proxy_backend_updater (options_of mappings) s.cli) s

  unfoldable pub deploy_container : CurrentResponse → Daemon C → Phase ℕ
  deploy_container res s =
      deploy_resolved res
        (resolve_port_mappings (runtimes.exposed_ports s.cli.history (image_ref_of res))
          settings.port_mappings)
        s

  unfoldable pub is_deployed : Result ℕ → Bool
  is_deployed (ok n) = true
  is_deployed (err e) = false

  unfoldable pub recorded_deployment : Phase ℕ → Phase ℕ
  recorded_deployment (r, s) =
      (r, on_dewy (record_if cache outside config config.telemetry_on (is_deployed r)) s)

  unfoldable pub apply_container_deployment : CurrentResponse → Daemon C → Phase ℕ
  apply_container_deployment res s = recorded_deployment (
      deploy_container res (
        on_dewy (exec_hook cache outside config (codes "Before Deploy") config.before_deploy_hook)
          s))

  unfoldable pub promote_container_and_report : CurrentResponse → ℕ → Text → Daemon C → Phase IsDone
  promote_container_and_report res deployed_count image_ref s =
      let s1 = on_dewy (λ d. record d { c_ver = res.tag }) s in
      let s2 =
        on_dewy (exec_hook cache outside config (codes "After Deploy") config.after_deploy_hook)
          s1 in
      let s3 = on_dewy (report_deployment cache outside config res) s2 in
      let total = total_replicas settings.replicas in
      let s4 = log (notify (container_deployed deployed_count total s3.dewy.c_ver)) s3 in
      (ok done, log (clean_images image_ref) s4)

  unfoldable pub run_container_deploy : CurrentResponse → ContainerState → Daemon C → Phase IsDone
  run_container_deploy res st s = and_then (pull_container_image res s) (λ _ s.
      and_then (apply_container_deployment res s)
        (λ deployed_count. promote_container_and_report res deployed_count st.image_ref))

  unfoldable pub run_container_resolved : Option CurrentResponse → Daemon C → Phase IsDone
  run_container_resolved none s = (ok done, s)
  run_container_resolved (some res) s =
      and_then (resolve_container_state res s)
        (λ st s. if st.skip then (ok done, s) else run_container_deploy res st s)

  -- `RunContainer`
  unfoldable pub run_container : Daemon C → Phase IsDone
  run_container s = and_then (resolve_container_current s) run_container_resolved

  -- `stopManagedContainers` of container_deploy.go: which containers are stopped and removed, as
  -- `Stop` counts them.
  unfoldable pub stop_own_containers :
      (Text → Bool) → (Text → Bool) → Option (List Text) → Daemon C → Option (ℕ × ℕ)
  unfolding stop_managed_containers
  stop_own_containers can_stop can_remove listed s =
      if s.has_runtime then stop_managed_containers can_stop can_remove listed else some (0, 0)
