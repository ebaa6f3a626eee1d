-- ===== src/Lifecycle/Retry/Skipped.antt =====
-- A deployment that fails, and the tick after it, for the assets command.
use mathlib.Core.Path.{subst}
use dewy.Common.{
  ◌≡◌, refl, ◌∙◌, ◌⊎◌, inl, inr, Bool, true, false, some, [], ◌∷◌, ◌++◌, if◌then◌else◌, Bool-cases,
  Text, codes, text_eq, text_eq_refl,
}
use dewy.Lifecycle.Outside.{
  assets, Config, CurrentResponse, ask_registry, found, Trace, matches, Cache, Outside, Dewy, Error,
  Result, ok, err, and_then,
}
use dewy.Lifecycle.Keys.{current_key_name, cache_key_name, content_of}
use dewy.Lifecycle.Phases.{
  CacheState, IsDone, done, emit, exec_hook, resolve_answer, resolve_current, resolve_same,
  resolve_found, resolve_listed, resolve_cache_state, preserve, swap_link, deploy, start_server_if,
  apply_deployment, promote_and_report, run_deploy, recorded, record_if, run_resolved, run,
}
use dewy.Lifecycle.Outcome.{Outcome, Outcome-if, Outcome-and_then, Outcome-weaken}
use dewy.Lifecycle.Retry.{
  CacheLaws, IsEarly, IsStored, EarlyOr, Stored, Resolved, download_and_cache-Stored,
  resolve_cache_state-Resolved,
}

module _ {C : Type 0} (cache : Cache C) (outside : Outside) (config : Config)
    (laws : CacheLaws cache) where
  -- The phases of the deployment do nothing to the cache.
  module _ (key : Text) where
    abbrev Kept : {A : Type 0} → A → Dewy C → Type 0
    Kept a s = Stored cache outside config laws key a s

    abbrev Left : Error → Dewy C → Type 0
    Left e s = EarlyOr cache outside config laws key e s

    abbrev Has : Dewy C → Type 0
    Has s = IsStored cache outside config laws key s.cache

    exec_hook-Stored :
        (name cmd : Text) (s : Dewy C) → Has s → Has (exec_hook cache outside config name cmd s)
    unfolding exec_hook emit
    exec_hook-Stored name [] s h = h
    exec_hook-Stored name (c ∷ cmd) s h = elim (Bool-cases (outside.can_run_hook s.trace)) [
      | inl y ↦ rw y h
      | inr n ↦ rw n h
    ]

    preserve-Stored : (s : Dewy C) → Has s → Outcome Kept Left (preserve cache outside config key s)
    unfolding preserve emit
    preserve-Stored s h =
        Outcome-if Kept Left (outside.can_make_release s.trace) _ _
          (Outcome-if Kept Left (outside.can_extract _ key) _ _ h (inr h)) (inr h)

    swap_link-Stored :
        (dir : Text) (s : Dewy C) → Has s → Outcome Kept Left (swap_link cache outside config dir s)
    unfolding swap_link emit
    swap_link-Stored dir s h =
        Outcome-if Kept Left (outside.can_make_link _) _ _
          (Outcome-if Kept Left (outside.can_rename_link _) _ _ h (inr h)) (inr h)

    apply_deployment-Stored :
        (res : CurrentResponse) (s : Dewy C)
        → Has s
        → Outcome Kept Left (apply_deployment cache outside config res key s)
    unfolding apply_deployment deploy emit
    apply_deployment-Stored res s h =
        Outcome-and_then Kept Kept Left _ _
          (preserve-Stored _
            (exec_hook-Stored (codes "Before Deploy") config.before_deploy_hook _ h))
          (λ dir t k.
            Outcome-and_then Kept Kept Left _ _ (swap_link-Stored dir _ k)
              (λ _ u l. exec_hook-Stored (codes "After Deploy") config.after_deploy_hook u l))

    abbrev Done : {A : Type 0} → A → Dewy C → Type 0
    Done a s = Unit {0}

    -- Without a server to start, the promotion has no error.
    promote_and_report-Done :
        (res : CurrentResponse) (s : Dewy C)
        → config.command ≡ assets
        → Outcome Done Left (promote_and_report cache outside config res s)
    unfolding promote_and_report start_server_if and_then
    promote_and_report-Done res s e = rw (e, promote_and_report) tt

    record_if-Stored :
        (b d : Bool) (s : Dewy C) → Has s → Has (record_if cache outside config b d s)
    unfolding record_if emit
    record_if-Stored true d s h = h
    record_if-Stored false d s h = h

    recorded-Left :
        (r : Result IsDone × Dewy C)
        → Outcome Done Left r
        → Outcome Done Left (recorded cache outside config r)
    unfolding recorded
    recorded-Left (ok a, s) h = tt
    recorded-Left (err e, s) (inl h) = inl h
    recorded-Left (err e, s) (inr h) = inr (record_if-Stored config.telemetry_on _ s h)

  deployed-Left :
      (res : CurrentResponse) (st : CacheState) (s : Dewy C)
      → config.command ≡ assets
      → (st.found_in_cache ≡ false) ⊎ IsStored cache outside config laws st.key s.cache
      → Outcome
          (λ _ _. Unit {0})
          (Left st.key)
          (if st.skip
            then (ok done, s)
            else recorded cache outside config (run_deploy cache outside config res st s))
  unfolding run_deploy
  deployed-Left res st s e h =
      Outcome-if (λ _ _. Unit {0}) (Left st.key) st.skip _ _ tt
        (recorded-Left st.key _ (
          Outcome-and_then (Kept st.key) (λ _ _. Unit {0}) (Left st.key) _ _
            (download_and_cache-Stored cache outside config laws res st s h)
            (λ _ t k.
              Outcome-and_then (Kept st.key) (λ _ _. Unit {0}) (Left st.key) _ _
                (apply_deployment-Stored st.key res t k)
                (λ _ u l. promote_and_report-Done st.key res u e))))

  deployed_with-Left :
      (key : Text) (res : CurrentResponse) (st : CacheState) (s : Dewy C)
      → config.command ≡ assets
      → Resolved cache outside config laws key st s
      → Outcome
          (λ _ _. Unit {0})
          (Left key)
          (if st.skip
            then (ok done, s)
            else recorded cache outside config (run_deploy cache outside config res st s))
  deployed_with-Left key res st s e (same, h) =
      subst
        (λ (k : Text).
          (st.found_in_cache ≡ false) ⊎ IsStored cache outside config laws k s.cache
          → Outcome (λ _ _. Unit {0}) (Left k)
              (if st.skip
                then (ok done, s)
                else recorded cache outside config (run_deploy cache outside config res st s)))
        same (deployed-Left res st s e) h

  run_resolved-Left :
      (res : CurrentResponse) (s : Dewy C)
      → config.command ≡ assets
      → Outcome
          (λ _ _. Unit {0})
          (Left (cache_key_name res))
          (run_resolved cache outside config (some res) s)
  unfolding run_resolved
  run_resolved-Left res s e =
      Outcome-and_then (Resolved cache outside config laws (cache_key_name res)) (λ _ _. Unit {0})
        (Left (cache_key_name res)) _ _
        (resolve_cache_state-Resolved cache outside config laws res s)
        (λ st t h. deployed_with-Left (cache_key_name res) res st t e h)

  -- A release whose key is stored is skipped: the registry is asked, and nothing else is done.
  abbrev Asked : {A : Type 0} → Dewy C → A → Dewy C → Type 0
  Asked s a s' = s'.trace ≡ s.trace ++ ask_registry ∷ []

  abbrev Never : Error → Dewy C → Type 0
  Never e s = ⊥

  run_resolved-Asked :
      (res : CurrentResponse) (s0 s : Dewy C)
      → config.command ≡ assets
      → IsStored cache outside config laws (cache_key_name res) s.cache
      → s.trace ≡ s0.trace ++ ask_registry ∷ []
      → Outcome (Asked s0) Never (run_resolved cache outside config (some res) s)
  unfolding run_resolved resolve_cache_state resolve_listed resolve_found resolve_same content_of
      and_then
  run_resolved-Asked res s0 s e (h, (l, k, m)) t =
      let key = cache_key_name res in
      let listed : cache.list (cache.read current_key_name s.cache).1 ≡ some l =
        laws.list_read current_key_name s.cache ∙ k in
      let same : text_eq key key ≡ true = text_eq_refl key in rw (h, listed, m, same, e) t

  -- The next tick does not try a deployment again that has failed.
  abbrev pub NotTriedAgain : Error → Dewy C → Type 0
  NotTriedAgain e s = IsEarly e ⊎ Outcome (Asked s) Never (run cache outside config s)

  run-Asked :
      (res : CurrentResponse) (s : Dewy C)
      → config.command ≡ assets
      → outside.current s.trace ≡ found res
      → IsStored cache outside config laws (cache_key_name res) s.cache
      → Outcome (Asked s) Never (run cache outside config s)
  unfolding run resolve_current resolve_answer emit and_then run_resolved
  run-Asked res s e f h = elim (Bool-cases (matches config.slot res.slot)) [
    | inl y ↦
        rw (f, y, run)
          (run_resolved-Asked res s (record s { trace = s.trace ++ ask_registry ∷ [] }) e h refl)
    | inr n ↦ rw (f, n, run) refl
  ]

  run-Left :
      (res : CurrentResponse) (s : Dewy C)
      → config.command ≡ assets
      → outside.current s.trace ≡ found res
      → Outcome (λ _ _. Unit {0}) (Left (cache_key_name res)) (run cache outside config s)
  unfolding run resolve_current resolve_answer emit and_then run_resolved
  run-Left res s e f = elim (Bool-cases (matches config.slot res.slot)) [
    | inl y ↦
        rw (f, y, run) (run_resolved-Left res (record s { trace = s.trace ++ ask_registry ∷ [] }) e)
    | inr n ↦ rw (f, n, run) tt
  ]

  -- Where the command is that of assets, the cache keeps what is written, and the registry answers
  -- with the same release again and again, a tick ends without an error, or with one of the errors that
  -- only the phases before the deployment give (of the registry, the cache, or the artifact and its
  -- download), or the tick after it deploys nothing: it asks the registry and ends without an error.
  pub run-NotTriedAgain :
      (res : CurrentResponse) (s : Dewy C)
      → config.command ≡ assets
      → ((t : Trace) → outside.current t ≡ found res)
      → Outcome (λ _ _. Unit {0}) NotTriedAgain (run cache outside config s)
  run-NotTriedAgain res s e f =
      Outcome-weaken (λ _ _. Unit {0}) (λ _ _. Unit {0}) (Left (cache_key_name res)) NotTriedAgain _
        (run-Left res s e (f s.trace)) (λ _ _ _. tt)
        (λ c t h. elim h [
          | inl early ↦ inl early
          | inr stored ↦ inr (run-Asked res t e (f t.trace) stored)
        ])
