-- ===== src/Registry/Cached.antt =====
-- registry/cached.go: the answers of a registry, shared by the instances through a cache whose
-- writes are conditional. The cache, the clock and the registry answer as they like; times are
-- nanoseconds, with 0 for the zero time, and a time is within a span of another exactly where it is
-- before the other plus the span.
pub mod Answers
pub mod Waiting
use dewy.Common.{
  ℕ, zero, suc, ◌+◌, ◌-◌, ◌*◌, ◌/◌, ◌%◌, ◌^◌, ◌≤◌, ◌<◌, Ordering, lt, eq, gt, ◌≡◌, refl, sym, ap,
  ◌∙◌, ◌≢◌, ◌↔◌, ◌⊎◌, inl, inr, Bool, true, false, not, ◌&&◌, ◌||◌, Option, none, some, List, [],
  ◌∷◌, ◌++◌, append_assoc, append-nil, map, arith, ltb, leb, ◌==◌, if◌then◌else◌, Bool-cases,
  Option-cases, &&-true, ltb→lt, lt→ltb, eq_of_==, ==-refl, length, get_elem?, take, drop,
  length-append, take-append-drop, length-drop, any_of, all_of, All, All-append, All-map,
  All-weaken, All-flat_map, In, In-append_left, In-append_right, In-append-cases, All-at, Text,
  codes, text_eq, has_prefix, has_suffix, contains, to_lower, split, eq_of_text_eq, text_eq_refl,
  text_eq_iff, has_prefix-drop, has_prefix-append, ℤ, pos, negsuc, max_int, pos_part, neg_part,
  int_sub, sign, int_cmp, ◌>>=◌, ◌>>◌, Returns, Returns-some, Returns-bind, bind_of_some,
}

abbrev pub second : ℕ
second = 1000000000

-- maxLockTTL
unfoldable pub max_lock_ttl : ℕ → ℕ
max_lock_ttl ttl =
    let d = ttl * 2 in
    if ltb d (30 * second) then 30 * second else if ltb (300 * second) d then 300 * second else d

-- `cachedEntry`, of responses R.
pub record CachedEntry (R : Type 0) : Type 0 where
  pub response : Option R
  pub fetched_at : ℕ
  pub locked_at : ℕ
  pub locked_by : Text

-- `ReadWithVersion` and the decoding.
pub data ReadAnswer (R : Type 0) : Type 0 where
  entry : CachedEntry R → Text → ReadAnswer R
  not_found unreadable : ReadAnswer R

-- `WriteIfMatch`, with the new version.
pub data WriteAnswer : Type 0 where
  written : Text → WriteAnswer
  conflict write_failed : WriteAnswer

-- What an instance works with, on a world W that other instances change as well.
pub record Surroundings (R W : Type 0) : Type 0 where
  pub read_entry : W → ReadAnswer R × W
  pub write_entry : CachedEntry R → Text → W → WriteAnswer × W
  pub now : W → ℕ
  -- Whether the wait is over before the context is cancelled.
  pub sleep : W → Bool × W
  -- `none` is an error.
  pub inner_current : W → Option R × W
  pub node_id : Text
  pub ttl : ℕ
  pub lock_ttl : ℕ
  pub wait : ℕ

unfoldable pub response_of : {R : Type 0} → Option (CachedEntry R) → Option R
response_of none = none
response_of (some e) = e.response

unfoldable pub has_response : {R : Type 0} → Option R → Bool
has_response none = false
has_response (some r) = true

-- The end of the loop with a result, or its next round.
pub data Round (R W : Type 0) : Type 0 where
  finished : Option R → W → Round R W
  again : W → Round R W

module _ {R W : Type 0} (around : Surroundings R W) where
  unfoldable pub is_fresh : CachedEntry R → ℕ → Bool
  is_fresh e now = has_response e.response && ltb now (e.fetched_at + around.ttl)

  unfoldable pub is_locked : CachedEntry R → ℕ → Bool
  is_locked e now = not (e.locked_at == 0) && ltb now (e.locked_at + around.lock_ttl)

  -- The claim of the refresh keeps the previous response.
  unfoldable pub build_claim : Option (CachedEntry R) → ℕ → CachedEntry R
  build_claim none now = record {
    response = none;
    fetched_at = 0;
    locked_at = now;
    locked_by = around.node_id;
  }
  build_claim (some e) now = record e { locked_at = now; locked_by = around.node_id }

  unfoldable pub released : Option (CachedEntry R) → CachedEntry R
  released none = record { response = none; fetched_at = 0; locked_at = 0; locked_by = [] }
  released (some e) = record e { locked_at = 0; locked_by = [] }

  -- An error of the write is passed over.
  unfoldable pub release_lock : Option (CachedEntry R) → Text → W → W
  release_lock prev version w = (around.write_entry (released prev) version w).1

  unfoldable pub publish : Option (CachedEntry R) → Text → Option R × W → Option R × W
  publish prev version (none, w) = (response_of prev, release_lock prev version w)
  publish prev version (some res, w) = (
    some res,
    (around.write_entry
        (record { response = some res; fetched_at = around.now w; locked_at = 0; locked_by = [] })
        version w).1,
  )

  unfoldable pub refresh_and_publish : Option (CachedEntry R) → Text → W → Option R × W
  refresh_and_publish prev version w = publish prev version (around.inner_current w)

  unfoldable pub finish : Option R × W → Round R W
  finish (r, w) = finished r w

  -- A wait that is cancelled ends with the last response, if there is one.
  unfoldable pub after_sleep : Option R → Bool × W → Round R W
  after_sleep response (true, w) = again w
  after_sleep response (false, w) = finished response w

  unfoldable pub serve_or_ask : Option R → W → Round R W
  serve_or_ask (some r) w = finished (some r) w
  serve_or_ask none w = finish (around.inner_current w)

  unfoldable pub claimed : Option (CachedEntry R) → WriteAnswer × W → Round R W
  claimed prev (written version, w) = finish (refresh_and_publish prev version w)
  claimed prev (conflict, w) = after_sleep (response_of prev) (around.sleep w)
  claimed prev (write_failed, w) = serve_or_ask (response_of prev) w

  unfoldable pub try_claim : Option (CachedEntry R) → Text → W → Round R W
  try_claim prev version w =
      claimed prev (around.write_entry (build_claim prev (around.now w)) version w)

  unfoldable pub round_of : ℕ → ReadAnswer R × W → Round R W
  round_of deadline (unreadable, w) = finish (around.inner_current w)
  round_of deadline (not_found, w) = try_claim none [] w
  round_of deadline (entry e version, w) =
      if is_fresh e (around.now w)
      then finished e.response w
      else if is_locked e (around.now w) && ltb (around.now w) deadline
      then after_sleep e.response (around.sleep w)
      else try_claim (some e) version w

  unfoldable pub next : (W → Round R W) → Round R W → Round R W
  next rest (finished r w) = finished r w
  next rest (again w) = rest w

  -- The loop of `Current`, for a number of rounds; `again` where it would go on.
  unfoldable pub current_from : ℕ → ℕ → W → Round R W
  current_from zero deadline w = again w
  current_from (suc fuel) deadline w =
      next (current_from fuel deadline) (round_of deadline (around.read_entry w))

  unfoldable pub current : ℕ → W → Round R W
  current fuel w = current_from fuel (around.now w + (around.lock_ttl + around.wait)) w
