-- ===== src/Lifecycle/Containers/Ends.antt =====
-- How a tick of the container command ends for the version, the CLI and the proxies.
use dewy.Common.{ℕ, ◌≡◌, refl, ◌∙◌, ◌⊎◌, inl, inr, Option, none, some, Text, codes}
use dewy.Lifecycle.Outside.{
  Config, CurrentResponse, CurrentAnswer, found, artifact_not_found, current_failed, matches, Cache,
  Outside, Dewy, registry_error, runtime_error,
}
use dewy.Lifecycle.Phases.{emit, exec_hook}
use dewy.Lifecycle.Outcome.{Outcome, Outcome-if, Outcome-and_then}
use dewy.Lifecycle.Kept.{IsSame-refl, exec_hook-IsSame}
use dewy.Lifecycle.Promotion.{report_deployment-fields}
use dewy.Lifecycle.Containers.{
  ContainerConfig, Runtimes, Daemon, ContainerState, on_dewy, log, resolve_container_answer,
  resolve_container_current, resolve_container_state, promote_container_and_report,
  run_container_deploy, run_container_resolved, run_container,
}
use dewy.Lifecycle.Containers.Kept.{
  IsKept, After, IsFailed, kept-IsFailed, pull_container_image-IsKept,
}
use dewy.Container.Deploy.Defs.{PortMap, History}
use dewy.Container.Deploy.Rollback.{count_in}
use dewy.Lifecycle.Containers.Deployed.{IsDeployed, Deployed, apply_container_deployment-Deployed}

module _ {C : Type 0} (cache : Cache C) (outside : Outside) (config : Config) (runtimes : Runtimes)
    (settings : ContainerConfig) where
  pub Ends : {A : Type 0} → Daemon C → A → Daemon C → Type 0
  Ends s a s' =
      IsKept s s'
      ⊎ ((res : CurrentResponse) × (outside.current s.dewy.trace ≡ found res)
          × (s'.dewy.c_ver ≡ res.tag)
          × IsDeployed cache outside config runtimes settings res s s')

  module _ (p0 q0 : ℕ)
      (reorders : (image name tag : Text) (h : History) (m : PortMap)
        → count_in p0 q0 ((runtimes.environment image name tag).iterate h m)
          ≡ count_in p0 q0 m) where
    -- The steps after the deployment leave the new version and the CLI alone.
    promote-Ends :
        (res : CurrentResponse) (n : ℕ) (image : Text) (s0 s : Daemon C)
        → outside.current s0.dewy.trace ≡ found res
        → IsDeployed cache outside config runtimes settings res s0 s
        → Outcome
            (Ends s0)
            (IsFailed p0 q0 s0)
            (promote_container_and_report cache outside config runtimes settings res n image s)
    unfolding promote_container_and_report on_dewy log emit Ends
    promote-Ends res n image s0 s e k =
        let promoted : Dewy C = record s.dewy { c_ver = res.tag } in
        let hooked =
          exec_hook-IsSame cache outside config promoted (codes "After Deploy")
            config.after_deploy_hook promoted (IsSame-refl promoted) in
        let reported =
          (report_deployment-fields cache outside config res (
            exec_hook cache outside config (codes "After Deploy") config.after_deploy_hook
              promoted)).0 in
        inr (
          res,
          e,
          reported ∙ hooked.c_ver,
          record {
            mappings = k.mappings;
            report = k.report;
            is_resolved = k.is_resolved;
            is_deployed = k.is_deployed;
          },
        )

    run_container_deploy-Ends :
        (res : CurrentResponse) (st : ContainerState) (s0 s : Daemon C)
        → outside.current s0.dewy.trace ≡ found res
        → IsKept s0 s
        → Outcome
            (Ends s0)
            (IsFailed p0 q0 s0)
            (run_container_deploy cache outside config runtimes settings res st s)
    unfolding run_container_deploy
    run_container_deploy-Ends res st s0 s e h =
        Outcome-and_then (After s0) (Ends s0) (IsFailed p0 q0 s0) _ _
          (pull_container_image-IsKept cache outside config runtimes settings p0 q0 res s0 s h)
          (λ _ t k.
            Outcome-and_then (Deployed cache outside config runtimes settings p0 q0 reorders res s0)
              (Ends s0) (IsFailed p0 q0 s0) _ _
              (apply_container_deployment-Deployed cache outside config runtimes settings p0 q0
                reorders res s0 t k)
              (λ n u l. promote-Ends res n st.image_ref s0 u e l.1))

    abbrev Answered : Daemon C → Option CurrentResponse → Daemon C → Type 0
    Answered s none s' = IsKept s s'
    Answered s (some res) s' = IsKept s s' × (outside.current s.dewy.trace ≡ found res)

    resolve_container_state-IsKept :
        (res : CurrentResponse) (s0 s : Daemon C)
        → IsKept s0 s
        → Outcome
            (After s0)
            (IsFailed p0 q0 s0)
            (resolve_container_state cache outside config runtimes settings res s)
    unfolding resolve_container_state log on_dewy emit
    resolve_container_state-IsKept res s0 s h =
        Outcome-if (After s0) (IsFailed p0 q0 s0) (runtimes.can_make_runtime s.dewy.trace) _ _
          (record { c_ver = h.c_ver; cli = h.cli })
          (kept-IsFailed p0 q0 s0 _ runtime_error (record { c_ver = h.c_ver; cli = h.cli }))

    run_container_resolved-Ends :
        (s0 : Daemon C) (answer : Option CurrentResponse) (s : Daemon C)
        → Answered s0 answer s
        → Outcome
            (Ends s0)
            (IsFailed p0 q0 s0)
            (run_container_resolved cache outside config runtimes settings answer s)
    unfolding run_container_resolved Ends
    run_container_resolved-Ends s0 none s h = inl h
    run_container_resolved-Ends s0 (some res) s (h, e) =
        Outcome-and_then (After s0) (Ends s0) (IsFailed p0 q0 s0) _ _
          (resolve_container_state-IsKept res s0 s h)
          (λ st t k.
            Outcome-if (Ends s0) (IsFailed p0 q0 s0) st.skip _ _ (inl k)
              (run_container_deploy-Ends res st s0 t e k))

    resolve_answer-Answered :
        (answer : CurrentAnswer) (s0 s : Daemon C)
        → outside.current s0.dewy.trace ≡ answer
        → IsKept s0 s
        → Outcome
            (Answered s0)
            (IsFailed p0 q0 s0)
            (resolve_container_answer cache outside config runtimes settings answer s)
    unfolding resolve_container_answer
    resolve_answer-Answered (artifact_not_found age) s0 s e h =
        kept-IsFailed p0 q0 s0 s registry_error h
    resolve_answer-Answered current_failed s0 s e h = kept-IsFailed p0 q0 s0 s registry_error h
    resolve_answer-Answered (found res) s0 s e h =
        Outcome-if (Answered s0) (IsFailed p0 q0 s0) (matches config.slot res.slot) _ _ (h, e) h

    -- A tick of the container command without an error leaves the version, the CLI and the proxies
    -- as they were, or it promotes the release that the registry answered with: the rolling
    -- deployment of its image has ended without an error and gives the CLI and the proxies, and its
    -- tag is the version. A tick with an error leaves the version as it was and each backend held no
    -- more often than before, and as often unless an addition to the proxies failed. A visit of the
    -- entries of a port map comes to each entry as often as the map has it.
    pub run_container-Ends :
        (s : Daemon C)
        → Outcome
            (Ends s)
            (IsFailed p0 q0 s)
            (run_container cache outside config runtimes settings s)
    unfolding run_container resolve_container_current log on_dewy emit
    run_container-Ends s =
        Outcome-and_then (Answered s) (Ends s) (IsFailed p0 q0 s) _ _
          (resolve_answer-Answered (outside.current s.dewy.trace) s _ refl
            (record { c_ver = refl; cli = refl }))
          (run_container_resolved-Ends s)
