-- ===== src/Proxy/RoundRobin.antt =====
-- Which backends `getNextBackend` of proxy.go hands out.
use native.Mathlib.Nat.{mod-add-mod, add-mod_right, mod-eq_of_lt, mod-lt}
use native.Mathlib.Decide.{dec_lt}
use dewy.Common.{
  ℕ, zero, suc, ◌+◌, ◌-◌, ◌%◌, ◌≤◌, ◌<◌, ◌≡◌, refl, sym, ap, ◌∙◌, ◌⊎◌, inl, inr, Option, none, some,
  List, [], ◌∷◌, arith, length, get_elem?, In,
}
use dewy.Proxy.{TcpBackend, TcpProxy, uint64_mod, fetch_add, get_next_backend}

-- The state of the proxy after some connections, while no backend is added or removed.
pub after_connections : ℕ → TcpProxy → TcpProxy
after_connections zero p = p
after_connections (suc k) p = after_connections k (get_next_backend p).1

fetch_add_lem :
    (index : ℕ) → index < uint64_mod → fetch_add index ≡ (index, (index + 1) % uint64_mod)
unfolding fetch_add
fetch_add_lem index h = ground arith

next_of :
    (pp i : ℕ) (bs : List TcpBackend)
    → 0 < length bs
    → i < uint64_mod
    → get_next_backend (record { proxy_port = pp; backends = bs; backend_index = i }) ≡ (
      get_elem? bs (i % length bs),
      record { proxy_port = pp; backends = bs; backend_index = (i + 1) % uint64_mod },
    )
next_of pp i [] h k = absurd (omega arith)
next_of pp i (b ∷ bs) h k = unfold get_next_backend in rw (fetch_add_lem i k)

get_next_backend_lem :
    (p : TcpProxy)
    → 0 < length p.backends
    → p.backend_index < uint64_mod
    → get_next_backend p ≡ (
      get_elem? p.backends (p.backend_index % length p.backends),
      record p { backend_index = (p.backend_index + 1) % uint64_mod },
    )
get_next_backend_lem p h k = next_of p.proxy_port p.backend_index p.backends h k

get_elem?-some :
    {A : Type 0} (xs : List A) (i : ℕ)
    → i < length xs
    → (a : A) × (get_elem? xs i ≡ some a) × In a xs
get_elem?-some [] i h = absurd (omega arith)
get_elem?-some (x ∷ xs) zero h = (x, refl, inl refl)
get_elem?-some (x ∷ xs) (suc i) h =
    let (a, e, m) = get_elem?-some xs i (omega arith) in (a, e, inr m)

none_handed_out :
    (pp i : ℕ) (bs : List TcpBackend)
    → bs ≡ []
    → get_next_backend (record { proxy_port = pp; backends = bs; backend_index = i })
      ≡ (none, record { proxy_port = pp; backends = bs; backend_index = i })
unfolding get_next_backend
none_handed_out pp i [] h = refl
none_handed_out pp i (b ∷ bs) h = cc

nil-or-pos : (bs : List TcpBackend) → (bs ≡ []) ⊎ (0 < length bs)
nil-or-pos [] = inl refl
nil-or-pos (b ∷ bs) = inr (omega arith)

-- A proxy with a backend hands one out, and the index into the list is never out of range; a proxy
-- without one hands out none and does not count the connection.
pub get_next_backend_total :
    (p : TcpProxy)
    → p.backend_index < uint64_mod
    → ((p.backends ≡ []) × (get_next_backend p ≡ (none, p)))
      ⊎ ((b : TcpBackend) × ((get_next_backend p).0 ≡ some b) × In b p.backends)
get_next_backend_total p h = elim (nil-or-pos p.backends) [
  | inl e ↦ inl (e, none_handed_out p.proxy_port p.backend_index p.backends e)
  | inr positive ↦
      let (b, e, m) =
        get_elem?-some p.backends (p.backend_index % length p.backends) (grind arith) in
      inr (
        b,
        ap (λ (r : Option TcpBackend × TcpProxy). r.0) (get_next_backend_lem p positive h) ∙ e,
        m,
      )
]

after_connections_lem :
    (k : ℕ) (p : TcpProxy)
    → 0 < length p.backends
    → p.backend_index + k < uint64_mod
    → after_connections k p ≡ record p { backend_index = p.backend_index + k }
unfolding after_connections
after_connections_lem zero p h fits = ap (λ (i : ℕ). record p { backend_index = i }) (omega arith)
after_connections_lem (suc k) p h fits =
    let e = get_next_backend_lem p h (omega arith) in
    rw
      (
        e,
        after_connections_lem k (record p { backend_index = (p.backend_index + 1) % uint64_mod }) h
            (omega arith),
      )
      (ap (λ (i : ℕ). record p { backend_index = i }) (omega arith))

-- How many connections later a position comes up.
turn : (i n j : ℕ) → j < n → (k : ℕ) × (k < n) × ((i + k) % n ≡ j)
turn i n j h = elim (dec_lt j (i % n)) [
  | yes p ↦ (
    j + n - i % n,
    omega arith,
    sym (mod-add-mod i n (j + n - i % n))
        ∙ (ap (λ (t : ℕ). t % n) (omega (arith, mod-lt i {m = n} (omega arith)))
            ∙ (add-mod_right j n ∙ mod-eq_of_lt h)),
  )
  | no p ↦ (
    j - i % n,
    omega arith,
    sym (mod-add-mod i n (j - i % n)) ∙ (ap (λ (t : ℕ). t % n) (omega arith) ∙ mod-eq_of_lt h),
  )
]

-- From a counter that does not wrap around on the way, each of `n` backends is handed out once in
-- `n` connections in a row: for each position there is a connection that is given the backend
-- there.
pub get_next_backend_fair :
    (p : TcpProxy) (j : ℕ)
    → j < length p.backends
    → p.backend_index + length p.backends ≤ uint64_mod
    → (k : ℕ) × (k < length p.backends)
      × ((get_next_backend (after_connections k p)).0 ≡ get_elem? p.backends j)
get_next_backend_fair p j h fits =
    let (k, below, here) = turn p.backend_index (length p.backends) j h in
    (
      k,
      below,
      rw (
        after_connections_lem k p (omega arith) (omega arith),
        get_next_backend_lem (record p { backend_index = p.backend_index + k }) (omega arith)
            (omega arith),
        here,
      ),
    )
