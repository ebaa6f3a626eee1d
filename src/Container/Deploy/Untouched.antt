-- ===== src/Container/Deploy/Untouched.antt =====
-- What a deployment of container/deploy.go that fails does to the containers that were there.
use mathlib.Core.Path.{subst}
use dewy.Common.{
  ℕ, zero, suc, ◌+◌, ◌≡◌, refl, sym, ◌∙◌, ◌≢◌, inl, inr, Bool, true, false, Option, none, some,
  List, [], ◌∷◌, ◌++◌, if◌then◌else◌, Bool-cases, Option-cases, All, All-append, Text,
}
use dewy.Container.Deploy.Defs.{
  PortMapping, RollingDeployOptions, PortMap, DeployResult, DeployReport, Command, ps, run, port,
  check, stop, rm, History, Environment, BackendUpdater, Result, ok, err, State, get, put,
  record_command, collect_ports, check_health, after_start, start_and_check, add_backends,
  remove_backends, rollback_backends, rollback_containers, rollback, finish_replica, add_replica,
  deploy_replicas, finish_deploy, replica_count, deploy, unique_ports, localhost,
}

-- No command stops or removes the container.
abbrev pub Untouched : Text → History → Type 0
Untouched id = All (λ c. (c ≢ stop id) × (c ≢ rm id))

module _ {U : Type 0} (env : Environment) (updater : BackendUpdater U) (opts : RollingDeployOptions)
    (old : Text)
    (fresh : (h : History) (i : ℕ) (ports : List ℕ) → env.start h i ports ≢ some old) where
  abbrev IsUntouched : State U → Type 0
  IsUntouched s = Untouched old s.history

  record_command-IsUntouched :
      (c : Command) (s : State U)
      → c ≢ stop old
      → c ≢ rm old
      → IsUntouched s
      → IsUntouched (record_command env updater opts c s)
  unfolding record_command
  record_command-IsUntouched c s h k u = All-append _ s.history (c ∷ []) u ((h, k), tt)

  stop_and_rm-IsUntouched :
      (id : Text) (s : State U)
      → id ≢ old
      → IsUntouched s
      → IsUntouched
          (record_command env updater opts (rm id) (record_command env updater opts (stop id) s))
  stop_and_rm-IsUntouched id s h u =
      record_command-IsUntouched (rm id) _ (λ e. cc) (λ e. h (cc))
        (record_command-IsUntouched (stop id) s (λ e. h (cc)) (λ e. cc) u)

  collect_ports-IsUntouched :
      (id : Text) (ms : List PortMapping) (m1 m2 : PortMap) (s : State U)
      → IsUntouched s
      → IsUntouched (collect_ports env updater opts id ms m1 m2 s).1
  unfolding collect_ports
  collect_ports-IsUntouched id [] m1 m2 s u = u
  collect_ports-IsUntouched id (m ∷ ms) m1 m2 s u =
      let asked = record_command-IsUntouched (port id m.container_port) s (λ e. cc) (λ e. cc) u in
      elim (Option-cases (get m.container_port m1)) [
        | inr (p, known) ↦
            rw (known, collect_ports)
              (collect_ports-IsUntouched id ms m1 (put m.proxy_port p m2) s u)
        | inl unknown ↦ elim (Option-cases (env.mapped_port s.history id m.container_port)) [
          | inl failed ↦ rw (unknown, failed, collect_ports) asked
          | inr (p, mapped) ↦
              rw (unknown, mapped, collect_ports)
                (collect_ports-IsUntouched id ms (put m.container_port p m1) (put m.proxy_port p m2)
                  _ asked)
        ]
      ]

  -- A replica that is started is another container.
  abbrev IsOther : Result DeployResult → Type 0
  IsOther (ok r) = r.container_id ≢ old
  IsOther (err e) = Unit {0}

  abbrev GoesWell : Result DeployResult × State U → Type 0
  GoesWell r = IsOther r.0 × IsUntouched r.1

  GoesWell-if :
      (b : Bool) (x y : Result DeployResult × State U)
      → GoesWell x
      → GoesWell y
      → GoesWell (if b then x else y)
  GoesWell-if true x y h k = h
  GoesWell-if false x y h k = k

  check_health-GoesWell :
      (id : Text) (m : PortMap) (i : ℕ) (s : State U)
      → id ≢ old
      → IsUntouched s
      → GoesWell (check_health env updater opts id m i s)
  unfolding check_health
  check_health-GoesWell id m i s h u =
      let checked = record_command-IsUntouched (check id) s (λ e. cc) (λ e. cc) u in
      GoesWell-if opts.health_check _ _
        (GoesWell-if (env.healthy s.history id) _ _ (h, checked)
          (tt, stop_and_rm-IsUntouched id _ h checked))
        (h, u)

  after_start-GoesWell :
      (id : Text) (i : ℕ) (r : Option PortMap × State U)
      → id ≢ old
      → IsUntouched r.1
      → GoesWell (after_start env updater opts id i r)
  unfolding after_start
  after_start-GoesWell id i (none, s) h u =
      (tt, record_command-IsUntouched (rm id) s (λ e. cc) (λ e. h (cc)) u)
  after_start-GoesWell id i (some m, s) h u = check_health-GoesWell id m i s h u

  start_and_check-GoesWell :
      (i : ℕ) (s : State U) → IsUntouched s → GoesWell (start_and_check env updater opts i s)
  unfolding start_and_check
  start_and_check-GoesWell i s u =
      let ports = unique_ports opts.port_mappings [] in
      elim (Option-cases (env.start s.history i ports)) [
        | inl failed ↦
            rw (failed, start_and_check)
              (tt, record_command-IsUntouched (run i ports none) s (λ e. cc) (λ e. cc) u)
        | inr (id, started) ↦
            rw (started, start_and_check)
              (after_start-GoesWell id i _ (λ e. fresh s.history i ports (rw (started, e)))
                (collect_ports-IsUntouched id opts.port_mappings [] [] _
                  (record_command-IsUntouched (run i ports (some id)) s (λ e. cc) (λ e. cc) u)))
      ]

  add_backends-history :
      (m : PortMap) (s : State U) → (add_backends env updater opts m s).1.history ≡ s.history
  unfolding add_backends
  add_backends-history [] s = refl
  add_backends-history ((p, q) ∷ m) s =
      let (u, added) = updater.add_backend localhost q p s.backends in
      elim (Bool-cases added) [
        | inl y ↦ rw (y, add_backends) (add_backends-history m _)
        | inr n ↦ rw (n, add_backends) refl
      ]

  remove_backends-history :
      (m : PortMap) (s : State U) → (remove_backends env updater opts m s).history ≡ s.history
  unfolding remove_backends
  remove_backends-history [] s = refl
  remove_backends-history ((p, q) ∷ m) s = remove_backends-history m _

  rollback_backends-history :
      (rs : List DeployResult) (s : State U)
      → (rollback_backends env updater opts rs s).history ≡ s.history
  unfolding rollback_backends
  rollback_backends-history [] s = refl
  rollback_backends-history (r ∷ rs) s =
      rollback_backends-history rs _
      ∙ remove_backends-history (env.iterate s.history r.mapped_ports) s

  abbrev AreOthers : List DeployResult → Type 0
  AreOthers = All (λ r. r.container_id ≢ old)

  rollback_containers-IsUntouched :
      (rs : List DeployResult) (s : State U)
      → AreOthers rs
      → IsUntouched s
      → IsUntouched (rollback_containers env updater opts rs s)
  unfolding rollback_containers
  rollback_containers-IsUntouched [] s h u = u
  rollback_containers-IsUntouched (r ∷ rs) s h u =
      rollback_containers-IsUntouched rs _ h.1 (stop_and_rm-IsUntouched r.container_id s h.0 u)

  rollback-IsUntouched :
      (rs : List DeployResult) (s : State U)
      → AreOthers rs
      → IsUntouched s
      → IsUntouched (rollback env updater opts rs s)
  unfolding rollback
  rollback-IsUntouched rs s h u =
      rollback_containers-IsUntouched rs _ h
        (subst (Untouched old) (sym (rollback_backends-history rs s)) u)

  -- Where there is an error, no old container is touched; else it is not yet.
  abbrev Spared : Result (List DeployResult) × State U → Type 0
  Spared (ok rs, s) = AreOthers rs × IsUntouched s
  Spared (err e, s) = IsUntouched s

  finish_replica-Spared :
      (rs : List DeployResult) (r : Bool × State U)
      → AreOthers rs
      → IsUntouched r.1
      → Spared (finish_replica env updater opts rs r)
  unfolding finish_replica
  finish_replica-Spared rs (true, s) h u = (h, u)
  finish_replica-Spared rs (false, s) h u = rollback-IsUntouched rs s h u

  add_replica-Spared :
      (rs : List DeployResult) (r : Result DeployResult × State U)
      → AreOthers rs
      → GoesWell r
      → Spared (add_replica env updater opts rs r)
  unfolding add_replica
  add_replica-Spared rs (err e, s) h g = rollback-IsUntouched rs s h g.1
  add_replica-Spared rs (ok r, s) h g =
      finish_replica-Spared (rs ++ r ∷ []) _ (All-append _ rs (r ∷ []) h (g.0, tt)) (
        subst (Untouched old) (sym (add_backends-history (env.iterate s.history r.mapped_ports) s))
          g.1)

  deploy_replicas-Spared :
      (n i : ℕ) (r : Result (List DeployResult) × State U)
      → Spared r
      → Spared (deploy_replicas env updater opts n i r)
  unfolding deploy_replicas
  deploy_replicas-Spared n i (err e, s) h = h
  deploy_replicas-Spared zero i (ok rs, s) h = h
  deploy_replicas-Spared (suc n) i (ok rs, s) (h, u) =
      let started = start_and_check env updater opts i s in
      deploy_replicas-Spared n (i + 1) (add_replica env updater opts rs started)
        (add_replica-Spared rs started h (start_and_check-GoesWell i s u))

  abbrev pub SparedOnError : Result DeployReport × State U → Type 0
  SparedOnError (ok report, s) = Unit {0}
  SparedOnError (err e, s) = IsUntouched s

  finish_deploy-SparedOnError :
      (existing : List Text) (r : Result (List DeployResult) × State U)
      → Spared r
      → SparedOnError (finish_deploy env updater opts existing r)
  unfolding finish_deploy
  finish_deploy-SparedOnError existing (err e, s) h = h
  finish_deploy-SparedOnError existing (ok rs, s) h = tt

  -- A deployment that ends with an error has stopped and removed no container that was there
  -- before, a container whose ID the CLI does not give to a new one.
  pub deploy-SparedOnError :
      (s : State U) → IsUntouched s → SparedOnError (deploy env updater opts s)
  unfolding deploy
  deploy-SparedOnError s u =
      let asked = record_command-IsUntouched ps s (λ e. cc) (λ e. cc) u in
      elim (Option-cases (env.find_containers s.history)) [
        | inl failed ↦ rw (failed, deploy) asked
        | inr (existing, listed) ↦
            rw (listed, deploy)
              (finish_deploy-SparedOnError existing _ (
                deploy_replicas-Spared (replica_count env updater opts opts.replicas) 0
                  (ok [], record_command env updater opts ps s) (tt, asked)))
      ]
