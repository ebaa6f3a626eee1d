-- ===== src/Container/Deploy/Starting.antt =====
-- Containers that are started or removed in container/deploy.go leave the backends alone.
use dewy.Common.{
  ℕ, ◌≡◌, refl, ◌∙◌, inl, inr, Bool, true, false, Option, none, some, List, [], ◌∷◌, if◌then◌else◌,
  Option-cases, Text,
}
use dewy.Container.Deploy.Defs.{
  PortMapping, RollingDeployOptions, PortMap, DeployResult, Environment, BackendUpdater, Result,
  State, get, put, record_command, collect_ports, check_health, after_start, start_and_check,
  rollback_containers, unique_ports,
}

module _ {U : Type 0} (env : Environment) (updater : BackendUpdater U)
    (opts : RollingDeployOptions) where
  collect_ports-backends :
      (id : Text) (ms : List PortMapping) (m1 m2 : PortMap) (s : State U)
      → (collect_ports env updater opts id ms m1 m2 s).1.backends ≡ s.backends
  unfolding collect_ports record_command
  collect_ports-backends id [] m1 m2 s = refl
  collect_ports-backends id (m ∷ ms) m1 m2 s = elim (Option-cases (get m.container_port m1)) [
    | inr (p, known) ↦
        rw (known, collect_ports) (collect_ports-backends id ms m1 (put m.proxy_port p m2) s)
    | inl unknown ↦ elim (Option-cases (env.mapped_port s.history id m.container_port)) [
      | inl failed ↦ rw (unknown, failed, collect_ports) refl
      | inr (p, mapped) ↦
          rw (unknown, mapped, collect_ports)
            (collect_ports-backends id ms (put m.container_port p m1) (put m.proxy_port p m2) _)
    ]
  ]

  if-backends :
      (b : Bool) (x y : Result DeployResult × State U) (u : U)
      → x.1.backends ≡ u
      → y.1.backends ≡ u
      → (if b then x else y).1.backends ≡ u
  if-backends true x y u h k = h
  if-backends false x y u h k = k

  check_health-backends :
      (id : Text) (m : PortMap) (i : ℕ) (s : State U)
      → (check_health env updater opts id m i s).1.backends ≡ s.backends
  unfolding check_health record_command
  check_health-backends id m i s =
      if-backends opts.health_check _ _ s.backends
        (if-backends (env.healthy s.history id) _ _ s.backends refl refl) refl

  after_start-backends :
      (id : Text) (i : ℕ) (r : Option PortMap × State U)
      → (after_start env updater opts id i r).1.backends ≡ r.1.backends
  unfolding after_start record_command
  after_start-backends id i (none, s) = refl
  after_start-backends id i (some m, s) = check_health-backends id m i s

  pub start_and_check-backends :
      (i : ℕ) (s : State U) → (start_and_check env updater opts i s).1.backends ≡ s.backends
  unfolding start_and_check record_command
  start_and_check-backends i s =
      let ports = unique_ports opts.port_mappings [] in
      elim (Option-cases (env.start s.history i ports)) [
        | inl failed ↦ rw (failed, start_and_check) refl
        | inr (id, started) ↦
            rw (started, start_and_check)
              (after_start-backends id i _ ∙ collect_ports-backends id opts.port_mappings [] [] _)
      ]

  pub rollback_containers-backends :
      (rs : List DeployResult) (s : State U)
      → (rollback_containers env updater opts rs s).backends ≡ s.backends
  unfolding rollback_containers record_command
  rollback_containers-backends [] s = refl
  rollback_containers-backends (r ∷ rs) s = rollback_containers-backends rs _
