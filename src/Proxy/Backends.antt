-- ===== src/Proxy/Backends.antt =====
-- What `addBackend`, `removeBackend` of proxy.go and the two functions of proxy_backend.go do to the
-- backends, counted with their multiplicity.
use dewy.Common.{
  ℕ, ◌+◌, ◌≡◌, refl, inl, inr, Bool, true, false, ◌&&◌, Option, none, some, List, [], ◌∷◌, ◌++◌,
  arith, ◌==◌, if◌then◌else◌, Bool-cases, Option-cases, eq_of_==, Text, text_eq, text_eq_iff,
}
use dewy.Proxy.{
  TcpBackend, TcpProxy, Proxies, add_backend, is_backend, remove_first, remove_backend, lookup,
  insert, add_proxy_backend, remove_proxy_backend,
}

-- How often a list holds a backend.
pub count : Text → ℕ → List TcpBackend → ℕ
count host port [] = 0
count host port (b ∷ bs) = (if is_backend host port b then 1 else 0) + count host port bs

abbrev same_backend : Text → ℕ → Text → ℕ → Bool
same_backend host port host' port' = text_eq host host' && port == port'

is_backend_iff :
    (host host' : Text) (port port' : ℕ) (b : TcpBackend)
    → is_backend host port b ≡ true
    → is_backend host' port' b ≡ same_backend host port host' port'
unfolding is_backend
is_backend_iff host host' port port' b h =
    ground (arith, text_eq_iff b.host host, text_eq_iff b.host host', text_eq_iff host host')

count-append :
    (host : Text) (port : ℕ) (xs ys : List TcpBackend)
    → count host port (xs ++ ys) ≡ count host port xs + count host port ys
unfolding count
count-append host port [] ys = omega arith
count-append host port (x ∷ xs) ys = omega (arith, count-append host port xs ys)

-- `removeBackend` takes one such backend out, and no other.
count-remove_first :
    (host host' : Text) (port port' : ℕ) (bs bs' : List TcpBackend)
    → remove_first host port bs ≡ some bs'
    → count host' port' bs
      ≡ count host' port' bs' + (if same_backend host port host' port' then 1 else 0)
unfolding count remove_first
count-remove_first host host' port port' [] bs' h = cc
count-remove_first host host' port port' (b ∷ bs) bs' h =
    elim (Bool-cases (is_backend host port b)) [
      | inl y ↦ ground (arith, is_backend_iff host host' port port' b y)
      | inr n ↦ elim (Option-cases (remove_first host port bs)) [
        | inl missing ↦ absurd (ground arith)
        | inr (rest, found) ↦
            let e : b ∷ rest ≡ bs' = ground arith in
            rw (← e) (ground (arith, count-remove_first host host' port port' bs rest found))
      ]
    ]

-- It finds none exactly where there is none.
count-remove_first-none :
    (host : Text) (port : ℕ) (bs : List TcpBackend)
    → remove_first host port bs ≡ none
    → count host port bs ≡ 0
unfolding count remove_first
count-remove_first-none host port [] h = refl
count-remove_first-none host port (b ∷ bs) h = ground (arith, count-remove_first-none host port bs)

lookup-insert :
    (k j : ℕ) (p : TcpProxy) (m : Proxies)
    → lookup j (insert k p m) ≡ (if k == j then some p else lookup j m)
unfolding lookup insert
lookup-insert k j p [] = refl
lookup-insert k j p ((i, q) ∷ m) = ground (arith, lookup-insert k j p m)

-- The backends of a port.
abbrev backends_of : Option TcpProxy → List TcpBackend
backends_of none = []
backends_of (some p) = p.backends

-- How often the proxy of a port has a backend.
pub holds : Text → ℕ → ℕ → Proxies → ℕ
unfolding count
holds host port proxy_port d = count host port (backends_of (lookup proxy_port d))

abbrev pub same_entry : Text → ℕ → ℕ → Text → ℕ → ℕ → Bool
same_entry host port proxy_port host' port' proxy_port' =
    proxy_port == proxy_port' && same_backend host port host' port'

count-add :
    (host host' : Text) (port port' : ℕ) (p : TcpProxy)
    → count host' port' (add_backend host port p).backends
      ≡ count host' port' p.backends + (if same_backend host port host' port' then 1 else 0)
unfolding add_backend
count-add host host' port port' p =
    let b : TcpBackend = record { host = host; port = port } in
    rw (count-append host' port' p.backends (b ∷ [])) (unfold count is_backend in omega arith)

-- The state of the port's proxy after a write to the map.
holds-insert :
    (host' : Text) (port' proxy_port proxy_port' : ℕ) (p : TcpProxy) (d : Proxies)
    → holds host' port' proxy_port' (insert proxy_port p d) ≡ (
        if proxy_port == proxy_port'
        then count host' port' p.backends
        else holds host' port' proxy_port' d)
unfolding holds
holds-insert host' port' proxy_port proxy_port' p d =
    rw (lookup-insert proxy_port proxy_port' p d) (ground arith)

holds-lookup :
    (host' : Text) (port' proxy_port proxy_port' : ℕ) (p : TcpProxy) (d : Proxies)
    → lookup proxy_port d ≡ some p
    → (proxy_port == proxy_port') ≡ true
    → holds host' port' proxy_port' d ≡ count host' port' p.backends
unfolding holds
holds-lookup host' port' proxy_port proxy_port' p d found same =
    rw (← eq_of_== proxy_port proxy_port' same, found)

module _ (host : Text) (port proxy_port : ℕ) (d : Proxies) where
  add_missing : lookup proxy_port d ≡ none → add_proxy_backend host port proxy_port d ≡ (d, false)
  unfolding add_proxy_backend
  add_missing h = rw (h, add_proxy_backend)

  add_found :
      (p : TcpProxy)
      → lookup proxy_port d ≡ some p
      → add_proxy_backend host port proxy_port d
        ≡ (insert proxy_port (add_backend host port p) d, true)
  unfolding add_proxy_backend
  add_found p h = rw (h, add_proxy_backend)

  remove_missing :
      lookup proxy_port d ≡ none → remove_proxy_backend host port proxy_port d ≡ (d, false)
  unfolding remove_proxy_backend
  remove_missing h = rw (h, remove_proxy_backend)

  remove_absent :
      (p : TcpProxy)
      → lookup proxy_port d ≡ some p
      → remove_first host port p.backends ≡ none
      → remove_proxy_backend host port proxy_port d ≡ (insert proxy_port p d, false)
  unfolding remove_proxy_backend remove_backend
  remove_absent p h k = rw (h, remove_proxy_backend) (rw (k, remove_backend))

  remove_present :
      (p : TcpProxy) (bs : List TcpBackend)
      → lookup proxy_port d ≡ some p
      → remove_first host port p.backends ≡ some bs
      → remove_proxy_backend host port proxy_port d
        ≡ (insert proxy_port (record p { backends = bs }) d, true)
  unfolding remove_proxy_backend remove_backend
  remove_present p bs h k = rw (h, remove_proxy_backend) (rw (k, remove_backend))

module _ (host host' : Text) (port port' proxy_port proxy_port' : ℕ) (d : Proxies) where
  -- What is added is held once more, and nothing else changes; without a proxy for the port nothing
  -- changes at all.
  pub holds-add_proxy_backend :
      holds host' port' proxy_port' (add_proxy_backend host port proxy_port d).0
      ≡ holds host' port' proxy_port' d
        + (if (add_proxy_backend host port proxy_port d).1
              && same_entry host port proxy_port host' port' proxy_port'
            then 1
            else 0)
  holds-add_proxy_backend = elim (Option-cases (lookup proxy_port d)) [
    | inl missing ↦ rw (add_missing host port proxy_port d missing) (omega arith)
    | inr (p, found) ↦
        rw
          (
            add_found host port proxy_port d p found,
            holds-insert host' port' proxy_port proxy_port' (add_backend host port p) d,
          )
          (ground (
            arith,
            count-add host host' port port' p,
            holds-lookup host' port' proxy_port proxy_port' p d found,
          ))
  ]

  -- What is removed is held once less, and nothing else changes.
  pub holds-remove_proxy_backend :
      holds host' port' proxy_port' d
      ≡ holds host' port' proxy_port' (remove_proxy_backend host port proxy_port d).0
        + (if (remove_proxy_backend host port proxy_port d).1
              && same_entry host port proxy_port host' port' proxy_port'
            then 1
            else 0)
  holds-remove_proxy_backend = elim (Option-cases (lookup proxy_port d)) [
    | inl missing ↦ rw (remove_missing host port proxy_port d missing) (omega arith)
    | inr (p, found) ↦ elim (Option-cases (remove_first host port p.backends)) [
      | inl absent ↦
          rw
            (
              remove_absent host port proxy_port d p found absent,
              holds-insert host' port' proxy_port proxy_port' p d,
            )
            (ground (arith, holds-lookup host' port' proxy_port proxy_port' p d found))
      | inr (bs, present) ↦
          rw
            (
              remove_present host port proxy_port d p bs found present,
              holds-insert host' port' proxy_port proxy_port' (record p { backends = bs }) d,
            )
            (ground (
              arith,
              holds-lookup host' port' proxy_port proxy_port' p d found,
              count-remove_first host host' port port' p.backends bs present,
            ))
    ]
  ]

-- A removal fails only where the backend is not held.
pub remove_proxy_backend-fails :
    (host : Text) (port proxy_port : ℕ) (d : Proxies)
    → (remove_proxy_backend host port proxy_port d).1 ≡ false
    → holds host port proxy_port d ≡ 0
remove_proxy_backend-fails host port proxy_port d h = elim (Option-cases (lookup proxy_port d)) [
  | inl missing ↦ unfold holds count in rw missing
  | inr (p, found) ↦ elim (Option-cases (remove_first host port p.backends)) [
    | inl absent ↦ unfold holds in rw found (count-remove_first-none host port p.backends absent)
    | inr (bs, present) ↦ absurd (cc (remove_present host port proxy_port d p bs found present))
  ]
]
