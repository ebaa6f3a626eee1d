-- ===== src/Registry/Cached/Answers.antt =====
-- What `Current` of registry/cached.go returns while the shared cache has a response.
use dewy.Common.{
  ℕ, zero, suc, ◌+◌, ◌≡◌, refl, Bool, true, false, ◌&&◌, Option, none, some, ltb, if◌then◌else◌,
  Text,
}
use dewy.Registry.Cached.{
  CachedEntry, ReadAnswer, entry, not_found, unreadable, WriteAnswer, written, conflict,
  write_failed, Surroundings, response_of, Round, finished, again, is_fresh, is_locked, publish,
  refresh_and_publish, finish, after_sleep, serve_or_ask, claimed, try_claim, round_of, next,
  current_from, current, has_response, build_claim,
}

abbrev HasEntry : {R W : Type 0} → ReadAnswer R × W → Type 0
HasEntry (entry e version, w) = has_response e.response ≡ true
HasEntry (not_found, w) = ⊥
HasEntry (unreadable, w) = ⊥

-- While a world is of some kind, a read finds an entry with a response. A read, a wait and a write of
-- an entry that has a response keep the kind.
pub record IsServed {R W : Type 0} (around : Surroundings R W) (Kind : W → Type 0) : Type 0 where
  pub reads : (w : W) → Kind w → HasEntry (around.read_entry w)
  pub after_read : (w : W) → Kind w → Kind (around.read_entry w).1
  pub after_write :
      (e : CachedEntry R) (version : Text) (w : W)
      → has_response e.response ≡ true
      → Kind w
      → Kind (around.write_entry e version w).1
  pub after_sleep : (w : W) → Kind w → Kind (around.sleep w).1

-- A response is returned, or the loop goes on in a world of the kind.
abbrev pub Served : {R W : Type 0} → (W → Type 0) → Round R W → Type 0
Served Kind (finished r w) = has_response r ≡ true
Served Kind (again w) = Kind w

module _ {R W : Type 0} (around : Surroundings R W) (Kind : W → Type 0) where
  Served-if :
      (b : Bool) (x y : Round R W)
      → Served Kind x
      → Served Kind y
      → Served Kind (if b then x else y)
  Served-if true x y h k = h
  Served-if false x y h k = k

  after_sleep-Served :
      (r : Option R) (slept : Bool × W)
      → has_response r ≡ true
      → Kind slept.1
      → Served Kind (after_sleep around r slept)
  unfolding after_sleep
  after_sleep-Served r (true, w) h k = k
  after_sleep-Served r (false, w) h k = h

  serve_or_ask-Served :
      (r : Option R) (w : W) → has_response r ≡ true → Served Kind (serve_or_ask around r w)
  unfolding serve_or_ask has_response
  serve_or_ask-Served (some r) w h = refl
  serve_or_ask-Served none w h = cc

  publish-Served :
      (e : CachedEntry R) (version : Text) (answer : Option R × W)
      → has_response e.response ≡ true
      → Served Kind (finish around (publish around (some e) version answer))
  unfolding finish publish response_of has_response
  publish-Served e version (none, w) h = h
  publish-Served e version (some r, w) h = refl

  module _ (served : IsServed around Kind) where
    claimed-Served :
        (e : CachedEntry R) (answer : WriteAnswer × W)
        → has_response e.response ≡ true
        → Kind answer.1
        → Served Kind (claimed around (some e) answer)
    unfolding claimed refresh_and_publish response_of
    claimed-Served e (written version, w) h k = publish-Served e version (around.inner_current w) h
    claimed-Served e (conflict, w) h k =
        after_sleep-Served e.response (around.sleep w) h (served.after_sleep w k)
    claimed-Served e (write_failed, w) h k = serve_or_ask-Served e.response w h

    round_of-Served :
        (deadline : ℕ) (answer : ReadAnswer R × W)
        → HasEntry answer
        → Kind answer.1
        → Served Kind (round_of around deadline answer)
    unfolding round_of try_claim build_claim
    round_of-Served deadline (entry e version, w) h k =
        Served-if (is_fresh around e (around.now w)) _ _ h (
          Served-if (is_locked around e (around.now w) && ltb (around.now w) deadline) _ _
            (after_sleep-Served e.response (around.sleep w) h (served.after_sleep w k))
            (claimed-Served e _ h (served.after_write _ version w h k)))
    round_of-Served deadline (not_found, w) h k = absurd h
    round_of-Served deadline (unreadable, w) h k = absurd h

    next-Served :
        (rest : W → Round R W) (r : Round R W)
        → Served Kind r
        → ((w : W) → Kind w → Served Kind (rest w))
        → Served Kind (next around rest r)
    unfolding next
    next-Served rest (finished r w) h k = h
    next-Served rest (again w) h k = k w h

    current_from-Served :
        (fuel deadline : ℕ) (w : W) → Kind w → Served Kind (current_from around fuel deadline w)
    unfolding current_from
    current_from-Served zero deadline w h = h
    current_from-Served (suc fuel) deadline w h =
        next-Served (current_from around fuel deadline) _
          (round_of-Served deadline (around.read_entry w) (served.reads w h)
            (served.after_read w h))
          (current_from-Served fuel deadline)

-- While every read of the shared cache finds an entry with a response, for which it is enough that
-- no entry without a response is written, `Current` never returns an error, however many rounds it takes: not where the registry fails, not where the entry is stale
-- or locked, not where the cache cannot be written or a wait is cancelled.
pub current-Served :
    {R W : Type 0} (around : Surroundings R W) (Kind : W → Type 0) (fuel : ℕ) (w : W)
    → IsServed around Kind
    → Kind w
    → Served Kind (current around fuel w)
unfolding current
current-Served around Kind fuel w served h =
    current_from-Served around Kind served fuel (around.now w + (around.lock_ttl + around.wait)) w h
