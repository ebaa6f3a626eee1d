-- ===== src/Container/Deploy/Counts.antt =====
-- What a deployment of container/deploy.go that succeeds reports.
use mathlib.Core.Path.{subst}
use dewy.Common.{
  ℕ, zero, suc, ◌+◌, ◌≡◌, refl, ◌∙◌, Bool, true, false, some, List, [], ◌∷◌, ◌++◌, arith, length,
  length-append, Text, ℤ, pos, negsuc, pos_part, ◌-◌,
}
use dewy.Container.Deploy.Defs.{
  RollingDeployOptions, DeployResult, DeployReport, Environment, BackendUpdater, Result, ok, err,
  State, start_and_check, finish_replica, add_replica, deploy_replicas, remove_old, finish_deploy,
  replica_count, deploy, record_command, ps,
}

module _ {U : Type 0} (env : Environment) (updater : BackendUpdater U)
    (opts : RollingDeployOptions) where
  -- There are so many results, if there is no error.
  abbrev IsCounted : ℕ → Result (List DeployResult) × State U → Type 0
  IsCounted n (ok rs, s) = length rs ≡ n
  IsCounted n (err e, s) = Unit {0}

  finish_replica-IsCounted :
      (n : ℕ) (rs : List DeployResult) (r : Bool × State U)
      → length rs ≡ n
      → IsCounted n (finish_replica env updater opts rs r)
  unfolding finish_replica
  finish_replica-IsCounted n rs (true, s) h = h
  finish_replica-IsCounted n rs (false, s) h = tt

  add_replica-IsCounted :
      (n : ℕ) (rs : List DeployResult) (r : Result DeployResult × State U)
      → length rs ≡ n
      → IsCounted (suc n) (add_replica env updater opts rs r)
  unfolding add_replica
  add_replica-IsCounted n rs (err e, s) h = tt
  add_replica-IsCounted n rs (ok r, s) h =
      finish_replica-IsCounted (suc n) (rs ++ r ∷ []) _ (omega (arith, length-append rs (r ∷ [])))

  deploy_replicas-IsCounted :
      (n i k : ℕ) (r : Result (List DeployResult) × State U)
      → IsCounted k r
      → IsCounted (n + k) (deploy_replicas env updater opts n i r)
  unfolding deploy_replicas
  deploy_replicas-IsCounted n i k (err e, s) h = tt
  deploy_replicas-IsCounted zero i k (ok rs, s) h = omega arith
  deploy_replicas-IsCounted (suc n) i k (ok rs, s) h =
      let started = start_and_check env updater opts i s in
      let added = add_replica env updater opts rs started in
      subst (λ (m : ℕ). IsCounted m (deploy_replicas env updater opts n (i + 1) added))
        (omega arith)
        (deploy_replicas-IsCounted n (i + 1) (suc k) added (add_replica-IsCounted k rs started h))

  remove_old-count :
      (ids : List Text) (n : ℕ) (s : State U)
      → (remove_old env updater opts ids n s).0 ≡ n + length ids
  unfolding remove_old
  remove_old-count [] n s = omega arith
  remove_old-count (id ∷ ids) n s = remove_old-count ids (n + 1) _ ∙ omega arith

  replica_count_lem : (n : ℤ) → replica_count env updater opts n ≡ suc (pos_part n - 1)
  unfolding replica_count
  replica_count_lem (pos zero) = refl
  replica_count_lem (pos (suc n)) = omega arith
  replica_count_lem (negsuc n) = refl

  abbrev pub IsComplete : List Text → Result DeployReport × State U → Type 0
  IsComplete existing (ok report, s) =
      (length report.results ≡ suc (pos_part opts.replicas - 1))
      × (report.removed_count ≡ length existing)
  IsComplete existing (err e, s) = Unit {0}

  finish_deploy-IsComplete :
      (existing : List Text) (r : Result (List DeployResult) × State U)
      → IsCounted (suc (pos_part opts.replicas - 1)) r
      → IsComplete existing (finish_deploy env updater opts existing r)
  unfolding finish_deploy
  finish_deploy-IsComplete existing (err e, s) h = tt
  finish_deploy-IsComplete existing (ok rs, s) h = (h, remove_old-count existing 0 s ∙ omega arith)

  -- A deployment that finds the existing containers and ends without an error has as many results as
  -- replicas are asked for, one where the number is not positive, and counts every existing
  -- container as removed.
  pub deploy-IsComplete :
      (s : State U) (existing : List Text)
      → env.find_containers s.history ≡ some existing
      → IsComplete existing (deploy env updater opts s)
  unfolding deploy
  deploy-IsComplete s existing listed =
      let n = replica_count env updater opts opts.replicas in
      let r = deploy_replicas env updater opts n 0 (ok [], record_command env updater opts ps s) in
      rw (listed, deploy)
        (finish_deploy-IsComplete existing r (
          subst (λ (m : ℕ). IsCounted m r) (omega (arith, replica_count_lem opts.replicas))
            (deploy_replicas-IsCounted n 0 0 (ok [], record_command env updater opts ps s) refl)))
