-- ===== src/Proxy.antt =====
-- proxy.go: the TCP proxy of one port and its backends; proxy_backend.go and the rest of proxy.go:
-- the proxies of all ports.
pub mod RoundRobin
pub mod Backends
pub mod Updater
use mathlib.Core.Option
use dewy.Common.{
  ℕ, zero, suc, ◌+◌, ◌-◌, ◌*◌, ◌/◌, ◌%◌, ◌^◌, ◌≤◌, ◌<◌, Ordering, lt, eq, gt, ◌≡◌, refl, sym, ap,
  ◌∙◌, ◌≢◌, ◌↔◌, ◌⊎◌, inl, inr, Bool, true, false, not, ◌&&◌, ◌||◌, Option, none, some, List, [],
  ◌∷◌, ◌++◌, append_assoc, append-nil, map, arith, ltb, leb, ◌==◌, if◌then◌else◌, Bool-cases,
  Option-cases, &&-true, ltb→lt, lt→ltb, eq_of_==, ==-refl, length, get_elem?, take, drop,
  length-append, take-append-drop, length-drop, any_of, all_of, All, All-append, All-map,
  All-weaken, All-flat_map, In, In-append_left, In-append_right, In-append-cases, All-at, Text,
  codes, text_eq, has_prefix, has_suffix, contains, to_lower, split, eq_of_text_eq, text_eq_refl,
  text_eq_iff, has_prefix-drop, has_prefix-append, ℤ, pos, negsuc, max_int, pos_part, neg_part,
  int_sub, sign, int_cmp, ◌>>=◌, ◌>>◌, Returns, Returns-some, Returns-bind, bind_of_some,
}

pub record TcpBackend : Type 0 where
  pub host : Text
  pub port : ℕ

pub record TcpProxy : Type 0 where
  pub proxy_port : ℕ
  pub backends : List TcpBackend
  -- An atomic counter, a `uint64`.
  pub backend_index : ℕ

abbrev pub uint64_mod : ℕ
uint64_mod = 18446744073709551616

-- `atomic.AddUint64(&p.backendIndex, 1) - 1`: the counter before the call, and the one after.
unfoldable pub fetch_add : ℕ → ℕ × ℕ
fetch_add index =
    let next = (index + 1) % uint64_mod in ((next + uint64_mod - 1) % uint64_mod, next)

-- `none` in the middle is the panic of an index out of range.
unfoldable pub get_next_backend : TcpProxy → Option TcpBackend × TcpProxy
get_next_backend p = elim p.backends [
  | [] ↦ (none, p)
  | b ∷ bs ↦
      let (index, next) = fetch_add p.backend_index in
      (get_elem? p.backends (index % length p.backends), record p { backend_index = next })
]

unfoldable pub add_backend : Text → ℕ → TcpProxy → TcpProxy
add_backend host port p = record p {
  backends = p.backends ++ (record { host = host; port = port }) ∷ [];
}

-- b.host == host && b.port == port
unfoldable pub is_backend : Text → ℕ → TcpBackend → Bool
is_backend host port b = text_eq b.host host && b.port == port

-- The loop of `removeBackend`: the list without the first such backend, if there is one.
unfoldable pub remove_first : Text → ℕ → List TcpBackend → Option (List TcpBackend)
unfolding is_backend
remove_first host port [] = none
remove_first host port (b ∷ bs) =
    let rest = Option.map (λ removed. b ∷ removed) (remove_first host port bs) in
    if is_backend host port b then some bs else rest

unfoldable pub remove_backend : Text → ℕ → TcpProxy → TcpProxy × Bool
unfolding remove_first
remove_backend host port p = elim (remove_first host port p.backends) [
  | none ↦ (p, false)
  | some bs ↦ (record p { backends = bs }, true)
]

unfoldable pub backend_count : TcpProxy → ℕ
backend_count p = length p.backends

-- `d.tcpProxies`, keyed by proxy port.
abbrev pub Proxies : Type 0
Proxies = List (ℕ × TcpProxy)

unfoldable pub lookup : ℕ → Proxies → Option TcpProxy
lookup k [] = none
lookup k ((j, p) ∷ m) = if j == k then some p else lookup k m

unfoldable pub insert : ℕ → TcpProxy → Proxies → Proxies
insert k p [] = (k, p) ∷ []
insert k p ((j, q) ∷ m) = if j == k then (k, p) ∷ m else (j, q) ∷ insert k p m

-- The proxy of the port is a shared object: what is done to it is seen through the map.
unfoldable pub add_proxy_backend : Text → ℕ → ℕ → Proxies → Proxies × Bool
add_proxy_backend host port proxy_port d = elim (lookup proxy_port d) [
  | none ↦ (d, false)
  | some proxy ↦ (insert proxy_port (add_backend host port proxy) d, true)
]

unfoldable pub remove_proxy_backend : Text → ℕ → ℕ → Proxies → Proxies × Bool
remove_proxy_backend host port proxy_port d = elim (lookup proxy_port d) [
  | none ↦ (d, false)
  | some proxy ↦
      let (proxy', removed) = remove_backend host port proxy in
      (insert proxy_port proxy' d, removed)
]

unfoldable pub total_proxy_backends : Proxies → ℕ
unfolding backend_count
total_proxy_backends [] = 0
total_proxy_backends ((port, proxy) ∷ m) = backend_count proxy + total_proxy_backends m
