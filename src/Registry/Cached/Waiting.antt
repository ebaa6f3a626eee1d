-- ===== src/Registry/Cached/Waiting.antt =====
-- How long `Current` of registry/cached.go waits.
use dewy.Common.{
  ℕ, zero, suc, ◌+◌, ◌*◌, ◌≤◌, ◌<◌, ◌≡◌, refl, ◌≢◌, Bool, true, false, ◌&&◌, Option, none, some, [],
  arith, ltb, if◌then◌else◌, Text,
}
use dewy.Registry.Cached.{
  CachedEntry, ReadAnswer, entry, not_found, unreadable, WriteAnswer, written, conflict,
  write_failed, Surroundings, response_of, Round, finished, again, is_fresh, is_locked, finish,
  after_sleep, serve_or_ask, claimed, try_claim, round_of, next, current_from, current,
  max_lock_ttl, second,
}

-- A lock is held for thirty seconds at least and for five minutes at most, and not for a shorter
-- time where responses live longer.
pub max_lock_ttl-bounds :
    (ttl ttl' : ℕ)
    → ttl ≤ ttl'
    → (30 * second ≤ max_lock_ttl ttl)
      × (max_lock_ttl ttl ≤ max_lock_ttl ttl')
      × (max_lock_ttl ttl' ≤ 300 * second)
unfolding max_lock_ttl
max_lock_ttl-bounds ttl ttl' h = (ground arith, ground arith, ground arith)

-- The clock does not go back, a wait takes time, and no write meets another.
pub record IsTimely {R W : Type 0} (around : Surroundings R W) : Type 0 where
  pub after_read : (w : W) → around.now w ≤ around.now (around.read_entry w).1
  pub after_sleep : (w : W) → around.now w < around.now (around.sleep w).1
  pub alone :
      (e : CachedEntry R) (version : Text) (w : W) → (around.write_entry e version w).0 ≢ conflict

abbrev pub Finishes : {R W : Type 0} → Round R W → Type 0
Finishes {R} {W} r = (response : Option R) × (w : W) × (r ≡ finished response w)

module _ {R W : Type 0} (around : Surroundings R W) where
  -- The round is the last one, or it was before the deadline and took time.
  abbrev GoesOn : ℕ → ℕ → Round R W → Type 0
  GoesOn deadline n (finished r w) = Unit {0}
  GoesOn deadline n (again w) = (n < deadline) × (n < around.now w)

  GoesOn-if :
      (deadline n : ℕ) (b : Bool) (x y : Round R W)
      → (b ≡ true → GoesOn deadline n x)
      → GoesOn deadline n y
      → GoesOn deadline n (if b then x else y)
  GoesOn-if deadline n true x y h k = h refl
  GoesOn-if deadline n false x y h k = k

  serve_or_ask-GoesOn :
      (deadline n : ℕ) (r : Option R) (w : W) → GoesOn deadline n (serve_or_ask around r w)
  unfolding serve_or_ask finish
  serve_or_ask-GoesOn deadline n (some r) w = tt
  serve_or_ask-GoesOn deadline n none w = tt

  claimed-GoesOn :
      (deadline n : ℕ) (prev : Option (CachedEntry R)) (answer : WriteAnswer × W)
      → answer.0 ≢ conflict
      → GoesOn deadline n (claimed around prev answer)
  unfolding claimed finish
  claimed-GoesOn deadline n prev (written version, w) h = tt
  claimed-GoesOn deadline n prev (conflict, w) h = absurd (h refl)
  claimed-GoesOn deadline n prev (write_failed, w) h =
      serve_or_ask-GoesOn deadline n (response_of prev) w

  after_sleep-GoesOn :
      (deadline n : ℕ) (r : Option R) (slept : Bool × W)
      → n < deadline
      → n < around.now slept.1
      → GoesOn deadline n (after_sleep around r slept)
  unfolding after_sleep
  after_sleep-GoesOn deadline n r (true, w) h k = (h, k)
  after_sleep-GoesOn deadline n r (false, w) h k = tt

  next-Finishes :
      (deadline n : ℕ) (rest : W → Round R W) (r : Round R W)
      → GoesOn deadline n r
      → ((w : W) → n < deadline → n < around.now w → Finishes (rest w))
      → Finishes (next around rest r)
  unfolding next
  next-Finishes deadline n rest (finished r w) h k = (r, w, refl)
  next-Finishes deadline n rest (again w) (a, b) k = k w a b

  module _ (timely : IsTimely around) where
    round_of-GoesOn :
        (deadline : ℕ) (answer : ReadAnswer R × W)
        → GoesOn deadline (around.now answer.1) (round_of around deadline answer)
    unfolding round_of try_claim finish
    round_of-GoesOn deadline (unreadable, w) = tt
    round_of-GoesOn deadline (not_found, w) = claimed-GoesOn deadline _ none _ (timely.alone _ [] w)
    round_of-GoesOn deadline (entry e version, w) =
        let n = around.now w in
        GoesOn-if deadline n (is_fresh around e n) _ _ (λ _. tt)
          (GoesOn-if deadline n (is_locked around e n && ltb n deadline) _ _
            (λ h.
              after_sleep-GoesOn deadline n e.response (around.sleep w) (before n _ h)
                (timely.after_sleep w))
            (claimed-GoesOn deadline n (some e) _ (timely.alone _ version w)))
      where
        before : (n : ℕ) (b : Bool) → (b && ltb n deadline) ≡ true → n < deadline
        before n b h = ground arith

    current_from-Finishes :
        (fuel deadline : ℕ) (w : W)
        → deadline ≤ around.now w + fuel
        → Finishes (current_from around (suc fuel) deadline w)
    unfolding current_from
    current_from-Finishes zero deadline w h =
        next-Finishes deadline _ _ _ (round_of-GoesOn deadline (around.read_entry w))
          (λ w' a b. absurd (omega (arith, timely.after_read w)))
    current_from-Finishes (suc fuel) deadline w h =
        next-Finishes deadline _ _ _ (round_of-GoesOn deadline (around.read_entry w))
          (λ w' a b. current_from-Finishes fuel deadline w' (omega (arith, timely.after_read w)))

-- Where the clock goes on with every wait and no write meets another, `Current` returns: after as
-- many rounds as the lock and a wait last, and one more, it has finished, and so the rounds that
-- the model allows are enough.
pub current-Finishes :
    {R W : Type 0} (around : Surroundings R W) (w : W)
    → IsTimely around
    → Finishes (current around (suc (around.lock_ttl + around.wait)) w)
unfolding current
current-Finishes around w timely =
    current_from-Finishes around timely (around.lock_ttl + around.wait) _ w (omega arith)
