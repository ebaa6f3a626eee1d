-- ===== src/Lifecycle/Failures.antt =====
-- What a tick does to the version, the link and the server, with and without an error.
use dewy.Common.{
  ◌≡◌, refl, ◌∙◌, ◌⊎◌, inl, inr, Bool, true, false, Option, none, some, [], ◌∷◌, ◌++◌,
}
use dewy.Lifecycle.Outside.{
  Config, CurrentResponse, CurrentAnswer, ask_registry, found, artifact_not_found, current_failed,
  default_artifact_grace_period, is_within_grace_period, matches, Cache, Outside, Dewy, Result, ok,
  err,
}
use dewy.Lifecycle.Phases.{
  IsDone, emit, resolve_current, resolve_answer, is_ok, record_if, recorded, run_resolved, run,
}
use dewy.Lifecycle.Outcome.{Outcome, Outcome-if, Outcome-and_then}
use dewy.Lifecycle.Keys.{cache_key_name}
use dewy.Lifecycle.Kept.{Resolves, IsSame, Kept, resolve_cache_state-Kept}
use dewy.Lifecycle.Promotion.{running_after, IsPromoted, Promoted, run_deploy-IsPromoted}

module _ {C : Type 0} (cache : Cache C) (outside : Outside) (config : Config) where
  pub Ends : {A : Type 0} → Dewy C → A → Dewy C → Type 0
  Ends s a s' =
      IsSame s s'
      ⊎ ((res : CurrentResponse) × (outside.current s.trace ≡ found res)
          × IsPromoted outside config res s')

  abbrev Answered : Dewy C → Option CurrentResponse → Dewy C → Type 0
  Answered s none s' = IsSame s s'
  Answered s (some res) s' = IsSame s s' × (outside.current s.trace ≡ found res)

  pub record_if-fields :
      (b success : Bool) (s : Dewy C)
      → ((record_if cache outside config b success s).c_ver ≡ s.c_ver)
        × ((record_if cache outside config b success s).current ≡ s.current)
        × ((record_if cache outside config b success s).is_server_running ≡ s.is_server_running)
  unfolding record_if emit
  record_if-fields true success s = (refl, refl, refl)
  record_if-fields false success s = (refl, refl, refl)

  recorded-Ends :
      (s0 : Dewy C) (res : CurrentResponse) (r : Result IsDone × Dewy C)
      → outside.current s0.trace ≡ found res
      → Outcome (Promoted outside config res) (Kept s0) r
      → Outcome (Ends s0) (Kept s0) (recorded cache outside config r)
  unfolding recorded Ends is_ok
  recorded-Ends s0 res (ok a, s) e h =
      let (x, y, z) = record_if-fields config.telemetry_on true s in
      let (dir, l, r) = h.is_linked in
      inr (
        res,
        e,
        record {
          c_ver = x ∙ h.c_ver;
          is_linked = (dir, y ∙ l, r);
          is_server_running = running_after _ _ h.is_server_running z;
        },
      )
  recorded-Ends s0 res (err c, s) e (inr h) = inr h
  recorded-Ends s0 res (err c, s) e (inl h) =
      let (x, y, z) = record_if-fields config.telemetry_on false s in
      inl (record {
        c_ver = x ∙ h.c_ver;
        current = y ∙ h.current;
        is_server_running = z ∙ h.is_server_running;
      })

  resolve_current-Answered :
      (s : Dewy C) → Outcome (Answered s) (Kept s) (resolve_current cache outside config s)
  unfolding resolve_current resolve_answer emit
  resolve_current-Answered s = answered (outside.current s.trace) refl
    where
      same : IsSame s (record s { trace = s.trace ++ ask_registry ∷ [] })
      same = record { c_ver = refl; is_server_running = refl; current = refl }

      answered :
          (answer : CurrentAnswer)
          → outside.current s.trace ≡ answer
          → Outcome (Answered s) (Kept s) (
              resolve_answer cache outside config answer (emit cache outside config ask_registry s))
      answered (found res) e =
          Outcome-if (Answered s) (Kept s) (matches config.slot res.slot) _ _ (same, e) same
      answered (artifact_not_found age) e =
          Outcome-if (Answered s) (Kept s)
            (is_within_grace_period age default_artifact_grace_period) _ _ same (inl same)
      answered current_failed e = inl same

  run_resolved-Ends :
      (s0 : Dewy C) (answer : Option CurrentResponse) (s : Dewy C)
      → Answered s0 answer s
      → Outcome (Ends s0) (Kept s0) (run_resolved cache outside config answer s)
  unfolding run_resolved Ends
  run_resolved-Ends s0 none s h = inl h
  run_resolved-Ends s0 (some res) s (h, e) =
      Outcome-and_then (Resolves s0 (cache_key_name res)) (Ends s0) (Kept s0) _ _
        (resolve_cache_state-Kept cache outside config s0 res s h)
        (λ st t (k, key).
          Outcome-if (Ends s0) (Kept s0) st.skip _ _ (inl k) (
            recorded-Ends s0 res _ e
              (run_deploy-IsPromoted cache outside config res st s0 t key k)))

  -- A tick without an error leaves the version, the link and the server as they were, or promotes
  -- the release that the registry answered with: its tag is the version, the link points at a
  -- directory that was given for a release and into which the archive with its cache key could be
  -- extracted, and the server runs where the command has one. A tick with an error leaves them as they were,
  -- unless it is the server that could not be started or signalled.
  pub run-Ends : (s : Dewy C) → Outcome (Ends s) (Kept s) (run cache outside config s)
  unfolding run
  run-Ends s =
      Outcome-and_then (Answered s) (Ends s) (Kept s) _ _ (resolve_current-Answered s)
        (run_resolved-Ends s)
