-- ===== src/Lifecycle/Retry.antt =====
-- What a tick leaves in the cache, and what the next tick makes of it.
pub mod Skipped
use dewy.Common.{
  ℕ, zero, suc, ◌+◌, ◌-◌, ◌*◌, ◌/◌, ◌%◌, ◌^◌, ◌≤◌, ◌<◌, Ordering, lt, eq, gt, ◌≡◌, refl, sym, ap,
  ◌∙◌, ◌≢◌, ◌↔◌, ◌⊎◌, inl, inr, Bool, true, false, not, ◌&&◌, ◌||◌, Option, none, some, List, [],
  ◌∷◌, ◌++◌, append_assoc, append-nil, map, arith, ltb, leb, ◌==◌, if◌then◌else◌, Bool-cases,
  Option-cases, &&-true, ltb→lt, lt→ltb, eq_of_==, ==-refl, length, get_elem?, take, drop,
  length-append, take-append-drop, length-drop, any_of, all_of, All, All-append, All-map,
  All-weaken, All-flat_map, In, In-append_left, In-append_right, In-append-cases, All-at, Text,
  codes, text_eq, has_prefix, has_suffix, trim_prefix, split_once, contains, to_lower, split,
  eq_of_text_eq, text_eq_refl, text_eq_iff, has_prefix-drop, has_prefix-append, ℤ, pos, negsuc,
  max_int, pos_part, neg_part, int_sub, sign, int_cmp, ◌>>=◌, ◌>>◌, Returns, Returns-some,
  Returns-bind, bind_of_some, some_of_bind,
}
use dewy.Lifecycle.Outside.{
  Command, server, assets, container, Config, CurrentResponse, CurrentAnswer, ask_registry, Event,
  found, Trace, artifact_not_found, current_failed, matches, Cache, Outside, Dewy, Error,
  registry_error, list_error, write_error, read_error, artifact_error, download_error, Result, ok,
  err, and_then,
}
use dewy.Lifecycle.Keys.{current_key_name, cache_key_name, content_of, is_listed}
use dewy.Lifecycle.Phases.{
  CacheState, IsDone, done, emit, resolve_answer, resolve_current, loaded, stage_artifact,
  resolve_same, take_ownership, resolve_found, resolve_listed, resolve_cache_state, write_cache,
  make_artifact, end_download, download_artifact, download_and_cache, apply_deployment,
  promote_and_report, run_deploy, recorded, record_if, run_resolved, run,
}
use dewy.Lifecycle.Outcome.{Outcome, Outcome-if, Outcome-if_cases, Outcome-and_then, Outcome-weaken}

-- What the tick relies on in a cache: a read changes nothing that can be seen, and what is written
-- is read and listed from then on.
pub record CacheLaws {C : Type 0} (cache : Cache C) : Type 0 where
  pub read_read : (k j : Text) (c : C) → (cache.read k (cache.read j c).1).0 ≡ (cache.read k c).0
  pub list_read : (j : Text) (c : C) → cache.list (cache.read j c).1 ≡ cache.list c
  pub read_write :
      (k v : Text) (c : C)
      → (cache.write k v c).1 ≡ true
      → (cache.read k (cache.write k v c).0).0 ≡ some v
  pub list_write :
      (k v : Text) (c : C)
      → (cache.write k v c).1 ≡ true
      → (l : List Text) × (cache.list (cache.write k v c).0 ≡ some l) × (is_listed k l ≡ true)
  pub still_listed :
      (k j v : Text) (c : C) (l : List Text)
      → (cache.write j v c).1 ≡ true
      → cache.list c ≡ some l
      → is_listed k l ≡ true
      → (l' : List Text) × (cache.list (cache.write j v c).0 ≡ some l') × (is_listed k l' ≡ true)

-- An error that only the phases before the deployment give: of the registry, of the listing, a
-- write or a read of the cache, or of the artifact and its download.
abbrev pub IsEarly : Error → Type 0
IsEarly e =
    (e ≡ registry_error)
    ⊎ (e ≡ list_error)
    ⊎ (e ≡ write_error)
    ⊎ (e ≡ read_error)
    ⊎ (e ≡ artifact_error)
    ⊎ (e ≡ download_error)

module _ {C : Type 0} (cache : Cache C) (outside : Outside) (config : Config)
    (laws : CacheLaws cache) where
  -- The key is listed.
  abbrev pub Lists : Text → C → Type 0
  Lists key c = (l : List Text) × (cache.list c ≡ some l) × (is_listed key l ≡ true)

  -- The key is the current one, and it is listed.
  abbrev pub IsStored : Text → C → Type 0
  IsStored key c = ((cache.read current_key_name c).0 ≡ some key) × Lists key c

  pub IsStored-read : (key j : Text) (c : C) → IsStored key c → IsStored key (cache.read j c).1
  IsStored-read key j c (h, (l, k, m)) =
      (laws.read_read current_key_name j c ∙ h, (l, laws.list_read j c ∙ k, m))

  abbrev pub Trivial : {A : Type 0} → A → Dewy C → Type 0
  Trivial a s = Unit {0}

  abbrev pub EarlyOr : Text → Error → Dewy C → Type 0
  EarlyOr key e s = IsEarly e ⊎ IsStored key s.cache

  abbrev pub Stored : {A : Type 0} → Text → A → Dewy C → Type 0
  Stored key a s = IsStored key s.cache

  abbrev Listed : {A : Type 0} → Text → A → Dewy C → Type 0
  Listed key a s = Lists key s.cache

  write_current-Stored :
      (key : Text) (s : Dewy C)
      → Lists key s.cache
      → Outcome (Stored key) (EarlyOr key) (write_cache cache outside config current_key_name key s)
  unfolding write_cache
  write_current-Stored key s (l, h, k) =
      let (c, written) = cache.write current_key_name key s.cache in
      Outcome-if_cases (Stored key) (EarlyOr key) written _ _
        (λ y. (
          laws.read_write current_key_name key s.cache y,
          laws.still_listed key current_key_name key s.cache l y h k,
        ))
        (λ n. inl (inr (inr (inl refl))))

  write_key-Listed :
      (key bytes : Text) (s : Dewy C)
      → Outcome (Listed key) (EarlyOr key) (write_cache cache outside config key bytes s)
  unfolding write_cache
  write_key-Listed key bytes s =
      let (c, written) = cache.write key bytes s.cache in
      Outcome-if_cases (Listed key) (EarlyOr key) written _ _
        (λ y. laws.list_write key bytes s.cache y) (λ n. inl (inr (inr (inl refl))))

  Always : {A : Type 0} → A → Dewy C → Type 0
  Always a s = Unit {0}

  make_artifact-Early :
      (key url : Text) (a : Option Text) (s : Dewy C)
      → Outcome Always (EarlyOr key) (make_artifact cache outside config url a s)
  unfolding make_artifact Always
  make_artifact-Early key url (some u) s = tt
  make_artifact-Early key url none s =
      Outcome-if Always (EarlyOr key) (outside.can_make_artifact s.trace url) _ _ tt
        (inl (inr (inr (inr (inr (inl refl))))))

  end_download-Early :
      (key url : Text) (bytes : Option Text) (complete : Bool) (s : Dewy C)
      → Outcome Always (EarlyOr key) (end_download cache outside config url bytes complete s)
  unfolding end_download Always
  end_download-Early key url none complete s = inl (inr (inr (inr (inr (inr refl)))))
  end_download-Early key url (some buf) true s = tt
  end_download-Early key url (some buf) false s = inl (inr (inr (inr (inr (inr refl)))))

  -- A download that ends well has stored the release.
  pub download_and_cache-Stored :
      (res : CurrentResponse) (st : CacheState) (s : Dewy C)
      → (st.found_in_cache ≡ false) ⊎ IsStored st.key s.cache
      → Outcome (Stored st.key) (EarlyOr st.key) (download_and_cache cache outside config res st s)
  unfolding download_and_cache download_artifact
  download_and_cache-Stored res st s h =
      Outcome-if_cases (Stored st.key) (EarlyOr st.key) st.found_in_cache _ _
        (λ y. elim h [ inl n ↦ absurd (cc) | inr stored ↦ stored ])
        (λ n.
          Outcome-and_then Always (Stored st.key) (EarlyOr st.key) _ _
            (Outcome-and_then Always Always (EarlyOr st.key) _ _
              (make_artifact-Early st.key res.artifact_url s.artifact s)
              (λ url t k. end_download-Early st.key url _ _ t))
            (λ buf t k.
              Outcome-and_then (Listed st.key) (Stored st.key) (EarlyOr st.key) _ _
                (write_key-Listed st.key buf t) (λ _ u l. write_current-Stored st.key u l)))

  -- What the cache says of the key of a release.
  abbrev pub Resolved : Text → CacheState → Dewy C → Type 0
  Resolved key st s = (st.key ≡ key) × ((st.found_in_cache ≡ false) ⊎ IsStored key s.cache)

  loaded-Resolved :
      (key : Text) (content : Option Text) (s : Dewy C)
      → IsStored key s.cache
      → Outcome (Resolved key) (EarlyOr key) (loaded cache outside config key content s)
  unfolding loaded
  loaded-Resolved key none s h = inr h
  loaded-Resolved key (some bytes) s h = (refl, inr h)

  stage_artifact-Resolved :
      (key : Text) (s : Dewy C)
      → IsStored key s.cache
      → Outcome (Resolved key) (EarlyOr key) (stage_artifact cache outside config key s)
  unfolding stage_artifact
  stage_artifact-Resolved key s h =
      loaded-Resolved key (cache.read key s.cache).0
        (record s { cache = (cache.read key s.cache).1 }) (IsStored-read key key s.cache h)

  resolve_same-Resolved :
      (command : Command) (key : Text) (s : Dewy C)
      → IsStored key s.cache
      → Outcome (Resolved key) (EarlyOr key) (resolve_same cache outside config command key s)
  unfolding resolve_same
  resolve_same-Resolved server key s h =
      Outcome-if (Resolved key) (EarlyOr key) s.is_server_running _ _ (refl, inr h)
        (stage_artifact-Resolved key s h)
  resolve_same-Resolved assets key s h = (refl, inr h)
  resolve_same-Resolved container key s h = stage_artifact-Resolved key s h

  take_ownership-Resolved :
      (key : Text) (s : Dewy C)
      → Lists key s.cache
      → Outcome (Resolved key) (EarlyOr key) (take_ownership cache outside config key s)
  unfolding take_ownership
  take_ownership-Resolved key s (l, h, k) =
      let (c, written) = cache.write current_key_name key s.cache in
      Outcome-if_cases (Resolved key) (EarlyOr key) written _ _
        (λ y.
          stage_artifact-Resolved key (record s { cache = c })
            (
              laws.read_write current_key_name key s.cache y,
              laws.still_listed key current_key_name key s.cache l y h k,
            ))
        (λ n. inl (inr (inr (inl refl))))

  resolve_found-Resolved :
      (key : Text) (value : Option Text) (s : Dewy C)
      → text_eq [] key ≡ false
      → (cache.read current_key_name s.cache).0 ≡ value
      → Lists key s.cache
      → Outcome (Resolved key) (EarlyOr key) (resolve_found cache outside config key value s)
  unfolding resolve_found text_eq content_of
  resolve_found-Resolved key none s nonempty h l =
      Outcome-if_cases (Resolved key) (EarlyOr key) (text_eq [] key) _ _ (λ y. absurd (cc))
        (λ n. take_ownership-Resolved key s l)
  resolve_found-Resolved key (some v) s nonempty h l =
      Outcome-if_cases (Resolved key) (EarlyOr key) (text_eq v key) _ _
        (λ y. resolve_same-Resolved config.command key s (h ∙ ap some (eq_of_text_eq v key y), l))
        (λ n. take_ownership-Resolved key s l)

  resolve_listed-Resolved :
      (key : Text) (value : Option Text) (list : Option (List Text)) (s : Dewy C)
      → text_eq [] key ≡ false
      → (cache.read current_key_name s.cache).0 ≡ value
      → cache.list s.cache ≡ list
      → Outcome (Resolved key) (EarlyOr key) (resolve_listed cache outside config key value list s)
  unfolding resolve_listed
  resolve_listed-Resolved key value none s nonempty h l = inl (inr (inl refl))
  resolve_listed-Resolved key value (some list) s nonempty h l =
      Outcome-if_cases (Resolved key) (EarlyOr key) (is_listed key list) _ _
        (λ y. resolve_found-Resolved key value s nonempty h (list, l, y)) (λ n. (refl, inl refl))

  cache_key_name-nonempty : (res : CurrentResponse) → text_eq [] (cache_key_name res) ≡ false
  unfolding text_eq cache_key_name
  cache_key_name-nonempty res = nonempty_append res.tag _ _
    where
      nonempty_append : (tag : Text) (c : ℕ) (rest : Text) → text_eq [] (tag ++ c ∷ rest) ≡ false
      nonempty_append [] c rest = refl
      nonempty_append (d ∷ tag) c rest = refl

  pub resolve_cache_state-Resolved :
      (res : CurrentResponse) (s : Dewy C)
      → Outcome
          (Resolved (cache_key_name res))
          (EarlyOr (cache_key_name res))
          (resolve_cache_state cache outside config res s)
  unfolding resolve_cache_state
  resolve_cache_state-Resolved res s =
      let (value, c) = cache.read current_key_name s.cache in
      resolve_listed-Resolved (cache_key_name res) value (cache.list c) (record s { cache = c })
        (cache_key_name-nonempty res) (laws.read_read current_key_name current_key_name s.cache)
        refl
