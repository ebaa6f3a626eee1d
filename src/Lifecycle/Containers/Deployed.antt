-- ===== src/Lifecycle/Containers/Deployed.antt =====
-- The rolling deployment in a tick of the container command, and what it leaves behind.
use mathlib.Core.Path.{subst}
use dewy.Common.{ℕ, ◌≡◌, sym, ap, ◌∙◌, inl, inr, true, false, Option, none, some, List, Text, codes}
use dewy.Lifecycle.Outside.{
  Config, CurrentResponse, Cache, Outside, ports_error, deploy_error, Result, ok, err,
}
use dewy.Lifecycle.Phases.{emit}
use dewy.Lifecycle.Outcome.{Outcome}
use dewy.Lifecycle.Kept.{IsSame-refl, exec_hook-IsSame}
use dewy.Lifecycle.Failures.{record_if-fields}
use dewy.Lifecycle.Containers.{
  ContainerConfig, Runtimes, Daemon, on_dewy, log, image_ref_of, environment_of, options_of,
  end_deploy, deploy_resolved, deploy_container, is_deployed, recorded_deployment,
  apply_container_deployment,
}
use dewy.Lifecycle.Containers.Kept.{IsKept, IsFailed, kept-IsFailed}
use dewy.Container.Deploy.Defs.{
  PortMapping, PortMap, RollingDeployOptions, DeployReport, History, Environment, State, localhost,
  add_failed,
}
use dewy.Container.Deploy.Defs as Deploy
use dewy.Container.Deploy.Rollback.{count_in, TakenBack, deploy-TakenBack}
use dewy.Container.Ports.{resolve_port_mappings}
use dewy.Proxy.{Proxies}
use dewy.Proxy.Backends.{holds}
use dewy.Proxy.Updater.{proxy_backend_updater, holds-Counts}

module _ {C : Type 0} (cache : Cache C) (outside : Outside) (config : Config) (runtimes : Runtimes)
    (settings : ContainerConfig) where
  -- A release is promoted: the rolling deployment of its image has ended without an error, and its
  -- tag is the version.
  pub record IsDeployed (res : CurrentResponse) (s s' : Daemon C) : Type 0 where
    pub mappings : List PortMapping
    pub report : DeployReport
    pub is_resolved :
        resolve_port_mappings
          (runtimes.exposed_ports s.cli.history
            (image_ref_of cache outside config runtimes settings res))
          settings.port_mappings
        ≡ some mappings
    pub is_deployed :
        Deploy.deploy
          (environment_of cache outside config runtimes settings res)
          proxy_backend_updater
          (options_of cache outside config runtimes settings mappings)
          s.cli
        ≡ (Deploy.ok report, s'.cli)

  module _ (p0 q0 : ℕ)
      (reorders : (image name tag : Text) (h : History) (m : PortMap)
        → count_in p0 q0 ((runtimes.environment image name tag).iterate h m)
          ≡ count_in p0 q0 m) where
    -- The deployment of the image has ended, and the version is still as before.
    abbrev pub Deployed : CurrentResponse → Daemon C → ℕ → Daemon C → Type 0
    Deployed res s n s' = (s'.dewy.c_ver ≡ s.dewy.c_ver) × IsDeployed res s s'

    end_deploy-Deployed :
        (res : CurrentResponse) (ms : List PortMapping) (s0 s : Daemon C)
        (r : Deploy.Result DeployReport × State Proxies)
        → s.dewy.c_ver ≡ s0.dewy.c_ver
        → resolve_port_mappings
            (runtimes.exposed_ports s0.cli.history
              (image_ref_of cache outside config runtimes settings res))
            settings.port_mappings
          ≡ some ms
        → Deploy.deploy
            (environment_of cache outside config runtimes settings res)
            proxy_backend_updater
            (options_of cache outside config runtimes settings ms)
            s0.cli
          ≡ r
        → TakenBack
            (environment_of cache outside config runtimes settings res)
            proxy_backend_updater
            (options_of cache outside config runtimes settings ms)
            p0
            q0
            (holds localhost q0 p0)
            (holds-Counts p0 q0)
            (reorders _ _ _)
            (holds localhost q0 p0 s0.cli.backends)
            r
        → Outcome
            (Deployed res s0)
            (IsFailed p0 q0 s0)
            (end_deploy cache outside config runtimes settings r s)
    unfolding end_deploy log on_dewy emit
    end_deploy-Deployed res ms s0 s (Deploy.ok report, cli) h k l t =
        (h, record { mappings = ms; report = report; is_resolved = k; is_deployed = l })
    end_deploy-Deployed res ms s0 s (Deploy.err e, cli) h k l t = record {
      c_ver = h;
      at_most = t.0;
      as_often = elim t.1 [ inl failed ↦ inl (ap deploy_error failed) | inr same ↦ inr same ];
    }

    deploy_resolved-Deployed :
        (res : CurrentResponse) (ms : Option (List PortMapping)) (s0 s : Daemon C)
        → IsKept s0 s
        → resolve_port_mappings
            (runtimes.exposed_ports s0.cli.history
              (image_ref_of cache outside config runtimes settings res))
            settings.port_mappings
          ≡ ms
        → Outcome
            (Deployed res s0)
            (IsFailed p0 q0 s0)
            (deploy_resolved cache outside config runtimes settings res ms s)
    unfolding deploy_resolved
    deploy_resolved-Deployed res none s0 s h k = kept-IsFailed p0 q0 s0 s ports_error h
    deploy_resolved-Deployed res (some ms) s0 s h k =
        let env = environment_of cache outside config runtimes settings res in
        let opts = options_of cache outside config runtimes settings ms in
        end_deploy-Deployed res ms s0 s (Deploy.deploy env proxy_backend_updater opts s.cli) h.c_ver
          k (ap (Deploy.deploy env proxy_backend_updater opts) (sym h.cli))
          (subst
            (λ (c : State Proxies).
              TakenBack env proxy_backend_updater opts p0 q0 (holds localhost q0 p0)
                (holds-Counts p0 q0) (reorders _ _ _) (holds localhost q0 p0 s0.cli.backends)
                (Deploy.deploy env proxy_backend_updater opts c))
            (sym h.cli)
            (deploy-TakenBack env proxy_backend_updater opts p0 q0 (holds localhost q0 p0)
              (holds-Counts p0 q0) (reorders _ _ _) s0.cli))

    deploy_container-Deployed :
        (res : CurrentResponse) (s0 s : Daemon C)
        → IsKept s0 s
        → Outcome
            (Deployed res s0)
            (IsFailed p0 q0 s0)
            (deploy_container cache outside config runtimes settings res s)
    unfolding deploy_container
    deploy_container-Deployed res s0 s h = deploy_resolved-Deployed res _ s0 s h (
        ap
          (λ (c : State Proxies).
            resolve_port_mappings
              (runtimes.exposed_ports c.history
                (image_ref_of cache outside config runtimes settings res))
              settings.port_mappings)
          (sym h.cli))

    recorded_deployment-Deployed :
        (res : CurrentResponse) (s0 : Daemon C) (r : Result ℕ × Daemon C)
        → Outcome (Deployed res s0) (IsFailed p0 q0 s0) r
        → Outcome
            (Deployed res s0)
            (IsFailed p0 q0 s0)
            (recorded_deployment cache outside config runtimes settings r)
    unfolding recorded_deployment on_dewy is_deployed
    recorded_deployment-Deployed res s0 (ok n, s) (h, k) =
        let same = (record_if-fields cache outside config config.telemetry_on true s.dewy).0 in
        (
          same ∙ h,
          record {
            mappings = k.mappings;
            report = k.report;
            is_resolved = k.is_resolved;
            is_deployed = k.is_deployed;
          },
        )
    recorded_deployment-Deployed res s0 (err e, s) h =
        let same = (record_if-fields cache outside config config.telemetry_on false s.dewy).0 in
        record { c_ver = same ∙ h.c_ver; at_most = h.at_most; as_often = h.as_often }

    pub apply_container_deployment-Deployed :
        (res : CurrentResponse) (s0 s : Daemon C)
        → IsKept s0 s
        → Outcome
            (Deployed res s0)
            (IsFailed p0 q0 s0)
            (apply_container_deployment cache outside config runtimes settings res s)
    unfolding apply_container_deployment on_dewy
    apply_container_deployment-Deployed res s0 s h =
        let hooked =
          exec_hook-IsSame cache outside config s.dewy (codes "Before Deploy")
            config.before_deploy_hook s.dewy (IsSame-refl s.dewy) in
        recorded_deployment-Deployed res s0 _ (
          deploy_container-Deployed res s0 _
            (record { c_ver = hooked.c_ver ∙ h.c_ver; cli = h.cli }))
