-- ===== src/Lifecycle/Phases.antt =====
-- The phases of lifecycle.go, `deploy` and `preserve` of release.go, and `Run` of dewy.go.
use dewy.Common.{
  Bool, true, false, Option, none, some, List, [], ◌∷◌, ◌++◌, if◌then◌else◌, Text, codes, text_eq,
}
use dewy.Lifecycle.Outside.{
  CurrentAnswer, Command, server, assets, container, Config, CurrentResponse, found,
  artifact_not_found, current_failed, default_artifact_grace_period, is_within_grace_period,
  matches, limited_writes, max_artifact_size, Cache, hook_result, downloaded, extracted, restarted,
  started, Event, ask_registry, new_artifact, download, hook, notify, make_release, extract,
  remove_link, make_link, rename_link, new_starter, signal_restart, count_restart, report,
  keep_releases, record_deployment, Outside, Dewy, registry_error, list_error, write_error,
  read_error, artifact_error, download_error, release_error, extract_error, link_error,
  server_error, Result, ok, err, and_then,
}
use dewy.Lifecycle.Keys.{current_key_name, cache_key_name, content_of, is_listed}

pub record CacheState : Type 0 where
  pub key : Text
  pub found_in_cache : Bool
  pub skip : Bool

pub data IsDone : Type 0 where
  done : IsDone

module _ {C : Type 0} (cache : Cache C) (outside : Outside) (config : Config) where
  abbrev Phase : Type 0 → Type 0
  Phase A = Result A × Dewy C

  unfoldable pub emit : Event → Dewy C → Dewy C
  emit e s = record s { trace = s.trace ++ e ∷ [] }

  -- `execHook` and the notification of its result; the callers pass over its error.
  unfoldable pub exec_hook : Text → Text → Dewy C → Dewy C
  exec_hook name [] s = s
  exec_hook name (c ∷ cmd) s =
      if outside.can_run_hook s.trace
      then emit (notify (hook_result name)) (emit (hook (c ∷ cmd)) s)
      else s

  -- `resolveCurrent` with the registry's answer; `none` is a skip of the tick without an error.
  unfoldable pub resolve_answer : CurrentAnswer → Dewy C → Phase (Option CurrentResponse)
  resolve_answer (artifact_not_found age) s =
      if is_within_grace_period age default_artifact_grace_period
      then (ok none, s)
      else (err registry_error, s)
  resolve_answer current_failed s = (err registry_error, s)
  resolve_answer (found res) s =
      if matches config.slot res.slot then (ok (some res), s) else (ok none, s)

  unfoldable pub resolve_current : Dewy C → Phase (Option CurrentResponse)
  resolve_current s = resolve_answer (outside.current s.trace) (emit ask_registry s)

  unfoldable pub loaded : Text → Option Text → Dewy C → Phase CacheState
  loaded key none s = (err read_error, s)
  loaded key (some bytes) s = (ok (record { key = key; found_in_cache = true; skip = false }), s)

  -- The read of the artifact into the local stage.
  unfoldable pub stage_artifact : Text → Dewy C → Phase CacheState
  stage_artifact key s =
      let (content, c) = cache.read key s.cache in loaded key content (record s { cache = c })

  abbrev skipped : Text → CacheState
  skipped key = record { key = key; found_in_cache = true; skip = true }

  -- The key is the current one.
  unfoldable pub resolve_same : Command → Text → Dewy C → Phase CacheState
  resolve_same server key s =
      if s.is_server_running then (ok (skipped key), s) else stage_artifact key s
  resolve_same assets key s = (ok (skipped key), s)
  resolve_same container key s = stage_artifact key s

  -- The key becomes the current one.
  unfoldable pub take_ownership : Text → Dewy C → Phase CacheState
  take_ownership key s =
      let (c, written) = cache.write current_key_name key s.cache in
      if written
      then stage_artifact key (record s { cache = c })
      else (err write_error, record s { cache = c })

  -- The body of the loop, for the key that is found.
  unfoldable pub resolve_found : Text → Option Text → Dewy C → Phase CacheState
  resolve_found key current_value s =
      if text_eq (content_of current_value) key
      then resolve_same config.command key s
      else take_ownership key s

  unfoldable pub resolve_listed :
      Text → Option Text → Option (List Text) → Dewy C → Phase CacheState
  resolve_listed key current_value none s = (err list_error, s)
  resolve_listed key current_value (some list) s =
      if is_listed key list
      then resolve_found key current_value s
      else (ok (record { key = key; found_in_cache = false; skip = false }), s)

  unfoldable pub resolve_cache_state : CurrentResponse → Dewy C → Phase CacheState
  resolve_cache_state res s =
      let (current_value, c) = cache.read current_key_name s.cache in
      resolve_listed (cache_key_name res) current_value (cache.list c) (record s { cache = c })

  -- `artifact.New`, where no artifact is set.
  unfoldable pub make_artifact : Text → Option Text → Dewy C → Phase Text
  make_artifact artifact_url (some url) s = (ok url, s)
  make_artifact artifact_url none s =
      let made = outside.can_make_artifact s.trace artifact_url in
      let s' = emit (new_artifact artifact_url made) s in
      if made
      then (ok artifact_url, record s' { artifact = some artifact_url })
      else (err artifact_error, s')

  -- The artifact is given up however the download ends.
  unfoldable pub end_download : Text → Option Text → Bool → Dewy C → Phase Text
  end_download url none complete s =
      (err download_error, record (emit (download url false) s) { artifact = none })
  end_download url (some buf) true s =
      (ok buf, record (emit (download url true) s) { artifact = none })
  end_download url (some buf) false s =
      (err download_error, record (emit (download url false) s) { artifact = none })

  -- The download through the limited writer.
  unfoldable pub download_artifact : Text → Dewy C → Phase Text
  download_artifact url s =
      let (writes, complete) = outside.artifact_writes s.trace url in
      end_download url (limited_writes max_artifact_size [] writes) complete s

  unfoldable pub write_cache : Text → Text → Dewy C → Phase IsDone
  write_cache key data_ s =
      let (c, written) = cache.write key data_ s.cache in
      if written
      then (ok done, record s { cache = c })
      else (err write_error, record s { cache = c })

  unfoldable pub download_and_cache : CurrentResponse → CacheState → Dewy C → Phase IsDone
  download_and_cache res st s =
      if st.found_in_cache
      then (ok done, s)
      else and_then (and_then (make_artifact res.artifact_url s.artifact s) download_artifact)
          (λ buf s. and_then (write_cache st.key buf s) (λ _. write_cache current_key_name st.key))

  -- The directory of the new release.
  unfoldable pub preserve : Text → Dewy C → Phase Text
  preserve key s =
      let dst = outside.release_dir s.trace in
      let made = outside.can_make_release s.trace in
      let s' = emit (make_release dst made) s in
      let extracted_ = outside.can_extract s'.trace key in
      if made
      then if extracted_
        then (ok dst, emit (extract key dst true) s')
        else (err extract_error, emit (extract key dst false) s')
      else (err release_error, s')

  -- A new symlink beside the old one, and its rename over the old one.
  unfoldable pub swap_link : Text → Dewy C → Phase IsDone
  swap_link link_from s =
      let s1 = emit remove_link s in
      let linked = outside.can_make_link s1.trace in
      let s2 = emit (make_link link_from linked) s1 in
      let renamed = outside.can_rename_link s2.trace in
      let s3 = emit (rename_link renamed) s2 in
      if linked
      then if renamed
        then (ok done, record s3 { current = some link_from })
        else (err link_error, emit remove_link s3)
      else (err link_error, s2)

  -- `deploy`: the hook after the deployment runs on success only.
  unfoldable pub deploy : Text → Dewy C → Phase IsDone
  deploy key s =
      and_then (preserve key (exec_hook (codes "Before Deploy") config.before_deploy_hook s))
        (λ link_from s.
          and_then (swap_link link_from (emit (notify (extracted link_from)) s))
            (λ _ s. (ok done, exec_hook (codes "After Deploy") config.after_deploy_hook s)))

  unfoldable pub apply_deployment : CurrentResponse → Text → Dewy C → Phase IsDone
  apply_deployment res key s = deploy key (emit (notify (downloaded res.tag)) s)

  unfoldable pub restart_server : Dewy C → Phase IsDone
  restart_server s =
      let signalled = outside.can_signal s.trace in
      (if signalled then ok done else err server_error, emit (signal_restart signalled) s)

  -- A goroutine runs the server from here on.
  unfoldable pub start_server : Dewy C → Phase IsDone
  start_server s =
      let can_start = outside.can_start s.trace in
      let s' = emit (new_starter can_start) s in
      if can_start
      then (ok done, record s' { is_server_running = true })
      else (err server_error, s')

  unfoldable pub count_if : Bool → Dewy C → Dewy C
  count_if telemetry_on s = if telemetry_on then emit count_restart s else s

  -- A running server is signalled, another one is started.
  unfoldable pub start_or_restart_server : Dewy C → Phase IsDone
  start_or_restart_server s =
      if s.is_server_running
      then and_then (restart_server s) (λ _ s'. (
        ok done,
        emit (notify (restarted s'.c_ver config.has_ports)) (count_if config.telemetry_on s'),
      ))
      else and_then (start_server s)
          (λ _ s'. (ok done, emit (notify (started s'.c_ver config.has_ports)) s'))

  unfoldable pub report_deployment : CurrentResponse → Dewy C → Dewy C
  report_deployment res s =
      if config.disable_report then s else emit (report res.id res.tag config.command) s

  unfoldable pub start_server_if : Command → Dewy C → Phase IsDone
  start_server_if server s = start_or_restart_server s
  start_server_if assets s = (ok done, s)
  start_server_if container s = (ok done, s)

  unfoldable pub promote_and_report : CurrentResponse → Dewy C → Phase IsDone
  promote_and_report res s =
      and_then (start_server_if config.command (record s { c_ver = res.tag }))
        (λ _ s. (ok done, emit keep_releases (report_deployment res s)))

  unfoldable pub run_deploy : CurrentResponse → CacheState → Dewy C → Phase IsDone
  run_deploy res st s =
      and_then (download_and_cache res st s)
        (λ _ s. and_then (apply_deployment res st.key s) (λ _. promote_and_report res))

  unfoldable pub is_ok : Result IsDone → Bool
  is_ok (ok d) = true
  is_ok (err e) = false

  unfoldable pub record_if : Bool → Bool → Dewy C → Dewy C
  record_if telemetry_on success s = if telemetry_on then emit (record_deployment success) s else s

  unfoldable pub recorded : Phase IsDone → Phase IsDone
  recorded (r, s) = (r, record_if config.telemetry_on (is_ok r) s)

  -- `Run` once the registry has answered.
  unfoldable pub run_resolved : Option CurrentResponse → Dewy C → Phase IsDone
  run_resolved none s = (ok done, s)
  run_resolved (some res) s =
      and_then (resolve_cache_state res s)
        (λ st s. if st.skip then (ok done, s) else recorded (run_deploy res st s))

  unfoldable pub run : Dewy C → Phase IsDone
  run s = and_then (resolve_current s) run_resolved
