-- ===== src/Lifecycle/Kept.antt =====
-- The phases before the link is swapped leave the version, the link and the server as they were.
use dewy.Common.{
  ◌++◌, ◌≡◌, refl, ◌⊎◌, inl, inr, Bool, true, false, Option, none, some, List, [], ◌∷◌, Bool-cases,
  Text, text_eq,
}
use dewy.Lifecycle.Outside.{
  Command, server, assets, container, Config, CurrentResponse, CurrentAnswer, Event, Trace,
  make_release, found, artifact_not_found, current_failed, default_artifact_grace_period,
  is_within_grace_period, matches, Cache, Outside, Dewy, Error, server_error,
}
use dewy.Lifecycle.Keys.{is_listed, content_of, cache_key_name, current_key_name}
use dewy.Lifecycle.Phases.{
  CacheState, emit, exec_hook, loaded, stage_artifact, resolve_same, take_ownership, resolve_answer,
  end_download, resolve_found, resolve_listed, resolve_cache_state, make_artifact,
  download_artifact, write_cache, download_and_cache, preserve,
}
use dewy.Lifecycle.Outcome.{Outcome, Outcome-if_cases, Outcome-if, Outcome-and_then}

-- The version, the link and the server are as before.
pub record IsSame {C : Type 0} (s s' : Dewy C) : Type 0 where
  pub c_ver : s'.c_ver ≡ s.c_ver
  pub is_server_running : s'.is_server_running ≡ s.is_server_running
  pub current : s'.current ≡ s.current

abbrev pub Before : {A C : Type 0} → Dewy C → A → Dewy C → Type 0
Before s a s' = IsSame s s'

-- The version, the link and the server are as before, and the key is that of the state of the cache.
abbrev pub Resolves : {C : Type 0} → Dewy C → Text → CacheState → Dewy C → Type 0
Resolves s key st s' = IsSame s s' × (st.key ≡ key)

-- The directory that is given for a release at some time: it could be made then, and the archive of
-- the key could be extracted into it.
pub record IsRelease (outside : Outside) (key dir : Text) : Type 0 where
  pub trace : Trace
  pub is_dir : dir ≡ outside.release_dir trace
  pub is_made : outside.can_make_release trace ≡ true
  pub is_extracted :
      outside.can_extract (trace ++ make_release dir (outside.can_make_release trace) ∷ []) key
      ≡ true

-- All is as before, or it was the server that did not start.
abbrev pub Kept : {C : Type 0} → Dewy C → Error → Dewy C → Type 0
Kept s e s' = IsSame s s' ⊎ (e ≡ server_error)

pub IsSame-refl : {C : Type 0} (s : Dewy C) → IsSame s s
IsSame-refl s = record { c_ver = refl; is_server_running = refl; current = refl }

module _ {C : Type 0} (cache : Cache C) (outside : Outside) (config : Config) (s : Dewy C) where
  pub exec_hook-IsSame :
      (name cmd : Text) (s' : Dewy C)
      → IsSame s s'
      → IsSame s (exec_hook cache outside config name cmd s')
  unfolding exec_hook emit
  exec_hook-IsSame name [] s' h = h
  exec_hook-IsSame name (c ∷ cmd) s' h = elim (Bool-cases (outside.can_run_hook s'.trace)) [
    | inl y ↦
        rw y
          (record { c_ver = h.c_ver; is_server_running = h.is_server_running; current = h.current })
    | inr n ↦ rw n h
  ]

  pub loaded-Kept :
      (key : Text) (content : Option Text) (s' : Dewy C)
      → IsSame s s'
      → Outcome (Resolves s key) (Kept s) (loaded cache outside config key content s')
  unfolding loaded
  loaded-Kept key none s' h = inl h
  loaded-Kept key (some bytes) s' h = (h, refl)

  pub stage_artifact-Kept :
      (key : Text) (s' : Dewy C)
      → IsSame s s'
      → Outcome (Resolves s key) (Kept s) (stage_artifact cache outside config key s')
  unfolding stage_artifact
  stage_artifact-Kept key s' h =
      let (content, c) = cache.read key s'.cache in
      loaded-Kept key content (record s' { cache = c })
        (record { c_ver = h.c_ver; is_server_running = h.is_server_running; current = h.current })

  pub resolve_same-Kept :
      (command : Command) (key : Text) (s' : Dewy C)
      → IsSame s s'
      → Outcome (Resolves s key) (Kept s) (resolve_same cache outside config command key s')
  unfolding resolve_same
  resolve_same-Kept server key s' h =
      Outcome-if (Resolves s key) (Kept s) s'.is_server_running _ _ (h, refl)
        (stage_artifact-Kept key s' h)
  resolve_same-Kept assets key s' h = (h, refl)
  resolve_same-Kept container key s' h = stage_artifact-Kept key s' h

  pub take_ownership-Kept :
      (key : Text) (s' : Dewy C)
      → IsSame s s'
      → Outcome (Resolves s key) (Kept s) (take_ownership cache outside config key s')
  unfolding take_ownership
  take_ownership-Kept key s' h =
      let (c, written) = cache.write current_key_name key s'.cache in
      let same : IsSame s (record s' { cache = c }) = record {
        c_ver = h.c_ver;
        is_server_running = h.is_server_running;
        current = h.current;
      } in
      Outcome-if (Resolves s key) (Kept s) written _ _
        (stage_artifact-Kept key (record s' { cache = c }) same) (inl same)

  pub resolve_found-Kept :
      (key : Text) (current_value : Option Text) (s' : Dewy C)
      → IsSame s s'
      → Outcome (Resolves s key) (Kept s) (resolve_found cache outside config key current_value s')
  unfolding resolve_found
  resolve_found-Kept key current_value s' h =
      Outcome-if (Resolves s key) (Kept s) (text_eq (content_of current_value) key) _ _
        (resolve_same-Kept config.command key s' h) (take_ownership-Kept key s' h)

  pub resolve_listed-Kept :
      (key : Text) (current_value : Option Text) (list : Option (List Text)) (s' : Dewy C)
      → IsSame s s'
      → Outcome
          (Resolves s key)
          (Kept s)
          (resolve_listed cache outside config key current_value list s')
  unfolding resolve_listed
  resolve_listed-Kept key current_value none s' h = inl h
  resolve_listed-Kept key current_value (some list) s' h =
      Outcome-if (Resolves s key) (Kept s) (is_listed key list) _ _
        (resolve_found-Kept key current_value s' h) (h, refl)

  pub resolve_cache_state-Kept :
      (res : CurrentResponse) (s' : Dewy C)
      → IsSame s s'
      → Outcome
          (Resolves s (cache_key_name res))
          (Kept s)
          (resolve_cache_state cache outside config res s')
  unfolding resolve_cache_state
  resolve_cache_state-Kept res s' h =
      let (current_value, c) = cache.read current_key_name s'.cache in
      resolve_listed-Kept (cache_key_name res) current_value (cache.list c)
        (record s' { cache = c })
        (record { c_ver = h.c_ver; is_server_running = h.is_server_running; current = h.current })

  pub resolve_answer-Kept :
      (answer : CurrentAnswer) (s' : Dewy C)
      → IsSame s s'
      → Outcome (Before s) (Kept s) (resolve_answer cache outside config answer s')
  unfolding resolve_answer
  resolve_answer-Kept (found res) s' h =
      Outcome-if (Before s) (Kept s) (matches config.slot res.slot) _ _ h h
  resolve_answer-Kept (artifact_not_found age) s' h =
      Outcome-if (Before s) (Kept s) (is_within_grace_period age default_artifact_grace_period) _ _
        h (inl h)
  resolve_answer-Kept current_failed s' h = inl h

  pub make_artifact-Kept :
      (url : Text) (artifact : Option Text) (s' : Dewy C)
      → IsSame s s'
      → Outcome (Before s) (Kept s) (make_artifact cache outside config url artifact s')
  unfolding make_artifact emit
  make_artifact-Kept url (some u) s' h = h
  make_artifact-Kept url none s' h =
      let same : (a : Option Text) (t : List Event)
          → IsSame s (record s' { artifact = a; trace = t }) =
        λ a t. record {
          c_ver = h.c_ver;
          is_server_running = h.is_server_running;
          current = h.current;
        } in
      Outcome-if (Before s) (Kept s) (outside.can_make_artifact s'.trace url) _ _ (same _ _)
        (inl (same _ _))

  pub end_download-Kept :
      (url : Text) (bytes : Option Text) (complete : Bool) (s' : Dewy C)
      → IsSame s s'
      → Outcome (Before s) (Kept s) (end_download cache outside config url bytes complete s')
  unfolding end_download emit
  end_download-Kept url none complete s' h =
      inl (record { c_ver = h.c_ver; is_server_running = h.is_server_running; current = h.current })
  end_download-Kept url (some buf) true s' h = record {
    c_ver = h.c_ver;
    is_server_running = h.is_server_running;
    current = h.current;
  }
  end_download-Kept url (some buf) false s' h =
      inl (record { c_ver = h.c_ver; is_server_running = h.is_server_running; current = h.current })

  pub write_cache-Kept :
      (key bytes : Text) (s' : Dewy C)
      → IsSame s s'
      → Outcome (Before s) (Kept s) (write_cache cache outside config key bytes s')
  unfolding write_cache
  write_cache-Kept key bytes s' h =
      let (c, written) = cache.write key bytes s'.cache in
      let same : IsSame s (record s' { cache = c }) = record {
        c_ver = h.c_ver;
        is_server_running = h.is_server_running;
        current = h.current;
      } in
      Outcome-if (Before s) (Kept s) written _ _ same (inl same)

  pub download_and_cache-Kept :
      (res : CurrentResponse) (st : CacheState) (s' : Dewy C)
      → IsSame s s'
      → Outcome (Before s) (Kept s) (download_and_cache cache outside config res st s')
  unfolding download_and_cache download_artifact
  download_and_cache-Kept res st s' h = Outcome-if (Before s) (Kept s) st.found_in_cache _ _ h (
      Outcome-and_then (Before s) (Before s) (Kept s) _ _
        (Outcome-and_then (Before s) (Before s) (Kept s) _ _
          (make_artifact-Kept res.artifact_url s'.artifact s' h)
          (λ url t k. end_download-Kept url _ _ t k))
        (λ buf t k.
          Outcome-and_then (Before s) (Before s) (Kept s) _ _ (write_cache-Kept st.key buf t k)
            (λ _ u l. write_cache-Kept current_key_name st.key u l)))

  pub preserve-IsRelease :
      (key : Text) (s' : Dewy C)
      → IsSame s s'
      → Outcome
          (λ dir t. IsSame s t × IsRelease outside key dir)
          (Kept s)
          (preserve cache outside config key s')
  unfolding preserve emit
  preserve-IsRelease key s' h =
      let Preserved : Text → Dewy C → Type 0 = λ dir t. IsSame s t × IsRelease outside key dir in
      let same : (t : List Event) → IsSame s (record s' { trace = t }) = λ t. record {
        c_ver = h.c_ver;
        is_server_running = h.is_server_running;
        current = h.current;
      } in
      Outcome-if_cases Preserved (Kept s) (outside.can_make_release s'.trace) _ _
        (λ made.
          Outcome-if_cases Preserved (Kept s) (outside.can_extract _ key) _ _
            (λ extracted. (
              same _,
              record { trace = s'.trace; is_dir = refl; is_made = made; is_extracted = extracted },
            ))
            (λ failed. inl (same _)))
        (λ failed. inl (same _))
