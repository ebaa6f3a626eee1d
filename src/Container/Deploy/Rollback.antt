-- ===== src/Container/Deploy/Rollback.antt =====
-- What a deployment of container/deploy.go that fails leaves behind the proxy. The backends are seen
-- through the interface `BackendUpdater` and one count: how often one backend is held.
use dewy.Common.{
  ℕ, zero, suc, ◌+◌, ◌-◌, ◌≤◌, ◌≡◌, refl, ap, ◌∙◌, ◌⊎◌, inl, inr, Bool, true, false, ◌&&◌, List, [],
  ◌∷◌, ◌++◌, arith, ◌==◌, if◌then◌else◌, Bool-cases, Option-cases, Text,
}
use dewy.Container.Deploy.Defs.{
  RollingDeployOptions, PortMap, DeployResult, DeployReport, ps, History, Environment,
  BackendUpdater, add_failed, Result, ok, err, State, record_command, start_and_check, add_backends,
  remove_backends, rollback_backends, rollback, finish_replica, add_replica, deploy_replicas,
  finish_deploy, replica_count, deploy, localhost,
}
use dewy.Container.Deploy.Starting.{start_and_check-backends, rollback_containers-backends}

-- Whether an entry of a port map is the backend that is counted.
abbrev pub is_entry : ℕ → ℕ → ℕ → ℕ → ℕ
is_entry p0 q0 p q = if p == p0 && q == q0 then 1 else 0

-- The count of a backend: an addition without an error counts one more, and a removal one less, if
-- it is counted at all.
pub record Counts {U : Type 0} (updater : BackendUpdater U) (p0 q0 : ℕ) (held : U → ℕ)
    : Type 0 where
  pub added :
      (p q : ℕ) (u : U)
      → held (updater.add_backend localhost q p u).0
        ≡ held u + (if (updater.add_backend localhost q p u).1 then is_entry p0 q0 p q else 0)
  pub removed :
      (p q : ℕ) (u : U)
      → held (updater.remove_backend localhost q p u).0 ≡ held u - is_entry p0 q0 p q

-- How often a port map has an entry.
pub count_in : ℕ → ℕ → PortMap → ℕ
count_in p0 q0 [] = 0
count_in p0 q0 ((p, q) ∷ m) = is_entry p0 q0 p q + count_in p0 q0 m

pub total_in : ℕ → ℕ → List DeployResult → ℕ
total_in p0 q0 [] = 0
total_in p0 q0 (r ∷ rs) = count_in p0 q0 r.mapped_ports + total_in p0 q0 rs

total_in-append :
    (p0 q0 : ℕ) (rs : List DeployResult) (r : DeployResult)
    → total_in p0 q0 (rs ++ r ∷ []) ≡ total_in p0 q0 rs + count_in p0 q0 r.mapped_ports
unfolding total_in
total_in-append p0 q0 [] r = omega arith
total_in-append p0 q0 (r' ∷ rs) r = omega (arith, total_in-append p0 q0 rs r)

module _ {U : Type 0} (env : Environment) (updater : BackendUpdater U)
    (opts : RollingDeployOptions) where
  module _ (p0 q0 : ℕ) (held : U → ℕ) (counts : Counts updater p0 q0 held)
      (reorders : (h : History) (m : PortMap)
        → count_in p0 q0 (env.iterate h m) ≡ count_in p0 q0 m) where
    -- All entries are added, or at most those of the map.
    add_backends-held :
        (m : PortMap) (s : State U)
        → (held (add_backends env updater opts m s).1.backends ≤ held s.backends + count_in p0 q0 m)
          × (((add_backends env updater opts m s).0 ≡ false)
              ⊎ (held (add_backends env updater opts m s).1.backends
                  ≡ held s.backends + count_in p0 q0 m))
    unfolding add_backends count_in
    add_backends-held [] s = (omega arith, inr (omega arith))
    add_backends-held ((p, q) ∷ m) s =
        let (u, added) = updater.add_backend localhost q p s.backends in
        let rest = add_backends-held m (record s { backends = u }) in
        let one = counts.added p q s.backends in
        elim (Bool-cases added) [
          | inl y ↦
              let more : held u ≡ held s.backends + is_entry p0 q0 p q = rw y at one in
              rw (y, add_backends)
                (
                  omega (arith, rest.0),
                  elim rest.1 [ inl failed ↦ inl failed | inr all ↦ inr (omega (arith, all)) ],
                )
          | inr n ↦
              let same : held u ≡ held s.backends + 0 = rw n at one in
              rw (n, add_backends) (omega arith, inl refl)
        ]

    remove_backends-held :
        (m : PortMap) (s : State U)
        → held (remove_backends env updater opts m s).backends ≡ held s.backends - count_in p0 q0 m
    unfolding remove_backends count_in
    remove_backends-held [] s = omega arith
    remove_backends-held ((p, q) ∷ m) s =
        let u = (updater.remove_backend localhost q p s.backends).0 in
        omega
          (arith, remove_backends-held m (record s { backends = u }), counts.removed p q s.backends)

    rollback_backends-held :
        (rs : List DeployResult) (s : State U)
        → held (rollback_backends env updater opts rs s).backends
          ≡ held s.backends - total_in p0 q0 rs
    unfolding rollback_backends total_in
    rollback_backends-held [] s = omega arith
    rollback_backends-held (r ∷ rs) s = omega (
      arith,
      rollback_backends-held rs
          (remove_backends env updater opts (env.iterate s.history r.mapped_ports) s),
      remove_backends-held (env.iterate s.history r.mapped_ports) s,
      reorders s.history r.mapped_ports,
    )

    rollback-held :
        (rs : List DeployResult) (s : State U)
        → held (rollback env updater opts rs s).backends ≡ held s.backends - total_in p0 q0 rs
    unfolding rollback
    rollback-held rs s =
        ap held (
          rollback_containers-backends env updater opts rs
            (rollback_backends env updater opts rs s))
        ∙ rollback_backends-held rs s

    -- The backends of the new containers are held besides those of before, or none is left.
    abbrev Held : ℕ → Result (List DeployResult) × State U → Type 0
    Held n (ok rs, s) = held s.backends ≡ n + total_in p0 q0 rs
    Held n (err e, s) = (held s.backends ≤ n) × ((e ≡ add_failed) ⊎ (held s.backends ≡ n))

    finish_replica-Held :
        (n : ℕ) (rs : List DeployResult) (r : Bool × State U)
        → held r.1.backends ≤ n + total_in p0 q0 rs
        → (r.0 ≡ false) ⊎ (held r.1.backends ≡ n + total_in p0 q0 rs)
        → Held n (finish_replica env updater opts rs r)
    unfolding finish_replica
    finish_replica-Held n rs (true, s) h (inl failed) = absurd (cc)
    finish_replica-Held n rs (true, s) h (inr all) = all
    finish_replica-Held n rs (false, s) h k = (omega (arith, rollback-held rs s), inl refl)

    add_replica-Held :
        (n : ℕ) (rs : List DeployResult) (r : Result DeployResult × State U)
        → held r.1.backends ≡ n + total_in p0 q0 rs
        → Held n (add_replica env updater opts rs r)
    unfolding add_replica
    add_replica-Held n rs (err e, s) h =
        (omega (arith, rollback-held rs s), inr (omega (arith, rollback-held rs s)))
    add_replica-Held n rs (ok r, s) h =
        let m = env.iterate s.history r.mapped_ports in
        let (most, all) = add_backends-held m s in
        finish_replica-Held n (rs ++ r ∷ []) (add_backends env updater opts m s)
          (omega (arith, most, total_in-append p0 q0 rs r, reorders s.history r.mapped_ports))
          (elim all [
            | inl failed ↦ inl failed
            | inr e ↦
                inr
                  (omega (arith, e, total_in-append p0 q0 rs r, reorders s.history r.mapped_ports))
          ])

    deploy_replicas-Held :
        (n k i : ℕ) (r : Result (List DeployResult) × State U)
        → Held n r
        → Held n (deploy_replicas env updater opts k i r)
    unfolding deploy_replicas
    deploy_replicas-Held n k i (err e, s) h = h
    deploy_replicas-Held n zero i (ok rs, s) h = h
    deploy_replicas-Held n (suc k) i (ok rs, s) h =
        let started = start_and_check env updater opts i s in
        deploy_replicas-Held n k (i + 1) (add_replica env updater opts rs started) (
          add_replica-Held n rs started
            (ap held (start_and_check-backends env updater opts i s) ∙ h))

    abbrev pub TakenBack : ℕ → Result DeployReport × State U → Type 0
    TakenBack n (ok report, s) = Unit {0}
    TakenBack n (err e, s) = (held s.backends ≤ n) × ((e ≡ add_failed) ⊎ (held s.backends ≡ n))

    finish_deploy-TakenBack :
        (n : ℕ) (existing : List Text) (r : Result (List DeployResult) × State U)
        → Held n r
        → TakenBack n (finish_deploy env updater opts existing r)
    unfolding finish_deploy
    finish_deploy-TakenBack n existing (err e, s) h = h
    finish_deploy-TakenBack n existing (ok rs, s) h = tt

    -- A deployment that ends with an error has taken back every backend that it added: each backend
    -- is held no more often than before, and exactly as often unless the error is that of an
    -- addition. The backends count one more at an addition without an error and one less at a
    -- removal, and a visit of the entries of a port map comes to each entry as often as the map has
    -- it.
    pub deploy-TakenBack : (s : State U) → TakenBack (held s.backends) (deploy env updater opts s)
    unfolding deploy record_command total_in
    deploy-TakenBack s =
        let asked : State U = record_command env updater opts ps s in
        elim (Option-cases (env.find_containers s.history)) [
          | inl failed ↦ rw (failed, deploy) (omega arith, inr refl)
          | inr (existing, listed) ↦
              rw (listed, deploy)
                (finish_deploy-TakenBack (held s.backends) existing _ (
                  deploy_replicas-Held (held s.backends)
                    (replica_count env updater opts opts.replicas) 0 (ok [], asked) (omega arith)))
        ]
