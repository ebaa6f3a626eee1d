-- ===== src/Tests/Answers.antt =====
-- registry/cached.go with a cache that holds a stale entry, and a registry that fails.
use dewy.Common.{ℕ, suc, ◌≡◌, refl, true, none, some, [], arith, Text, codes}
use dewy.Registry.Cached.{CachedEntry, entry, written, Surroundings, current, has_response}
use dewy.Registry.Cached.Answers.{IsServed, Served, current-Served}
use dewy.Registry.Cached.Waiting.{IsTimely, Finishes, current-Finishes}

-- The world is a clock.
abbrev failing : Surroundings Text ℕ
failing = record {
  read_entry = λ w. (
    entry
        (record { response = some (codes "v1.2.3"); fetched_at = 5; locked_at = 9; locked_by = [] })
        [],
    w,
  );
  write_entry = λ e version w. (written (codes "2"), w);
  now = λ w. w;
  sleep = λ w. (true, suc w);
  inner_current = λ w. (none, w);
  node_id = codes "host:1";
  ttl = 10;
  lock_ttl = 20;
  wait = 1;
}

-- A cache that keeps what is written, with a clock.
abbrev keeping : Surroundings Text (CachedEntry Text × ℕ)
keeping = record {
  read_entry = λ w. (entry w.0 [], w);
  write_entry = λ e version w. (written (codes "2"), (e, w.1));
  now = λ w. w.1;
  sleep = λ w. (true, (w.0, suc w.1));
  inner_current = λ w. (none, w);
  node_id = codes "host:1";
  ttl = 10;
  lock_ttl = 20;
  wait = 1;
}

abbrev HasResponse : CachedEntry Text × ℕ → Type 0
HasResponse w = has_response w.0.response ≡ true

keeping-IsServed : IsServed keeping HasResponse
keeping-IsServed = record {
  reads = λ w k. k;
  after_read = λ w k. k;
  after_write = λ e version w h k. h;
  after_sleep = λ w k. k;
}

abbrev stale : CachedEntry Text
stale = record { response = some (codes "v1.2.3"); fetched_at = 5; locked_at = 9; locked_by = [] }

current-Served_example : Served HasResponse (current keeping 21 (stale, 100))
unfolding has_response
current-Served_example = current-Served keeping HasResponse 21 (stale, 100) keeping-IsServed refl

failing-IsTimely : IsTimely failing
failing-IsTimely = record {
  after_read = λ w. omega arith;
  after_sleep = λ w. omega arith;
  alone = λ e version w h. cc;
}

current-Finishes_example : Finishes (current failing 22 100)
current-Finishes_example = current-Finishes failing 100 failing-IsTimely
