-- ===== src/Tests/Backends.antt =====
-- proxy.go and proxy_backend.go on concrete backends.
use dewy.Common.{
  ℕ, ◌+◌, ◌<◌, ◌≡◌, refl, ◌⊎◌, false, ◌&&◌, none, some, [], ◌∷◌, arith, if◌then◌else◌, In, Text,
  codes, text_eq,
}
use dewy.Proxy.{
  TcpBackend, TcpProxy, Proxies, get_next_backend, remove_proxy_backend, remove_backend, lookup,
}
use dewy.Proxy.RoundRobin.{after_connections, get_next_backend_total, get_next_backend_fair}
use dewy.Proxy.Backends.{holds, same_entry, holds-remove_proxy_backend}

abbrev host : Text
host = codes "localhost"

abbrev backend : ℕ → TcpBackend
backend port = record { host = host; port = port }

abbrev two_backends : TcpProxy
two_backends = record {
  proxy_port = 80;
  backends = backend 32768 ∷ backend 32769 ∷ [];
  backend_index = 7;
}

abbrev proxies : Proxies
proxies = (80, two_backends) ∷ []

holds-remove_proxy_backend_example :
    holds host 32768 80 proxies
    ≡ holds host 32768 80 (remove_proxy_backend host 32768 80 proxies).0
      + (if (remove_proxy_backend host 32768 80 proxies).1 && same_entry host 32768 80 host 32768 80
          then 1
          else 0)
holds-remove_proxy_backend_example = holds-remove_proxy_backend host host 32768 32768 80 80 proxies

not_removed : (remove_proxy_backend host 9000 80 proxies).1 ≡ false
unfolding remove_proxy_backend lookup remove_backend text_eq
not_removed = refl

get_next_backend_total_example :
    ((two_backends.backends ≡ []) × (get_next_backend two_backends ≡ (none, two_backends)))
    ⊎ ((b : TcpBackend) × ((get_next_backend two_backends).0 ≡ some b) × In b two_backends.backends)
get_next_backend_total_example = get_next_backend_total two_backends (omega arith)

get_next_backend_fair_example :
    (k : ℕ) × (k < 2)
    × ((get_next_backend (after_connections k two_backends)).0 ≡ some (backend 32769))
get_next_backend_fair_example = get_next_backend_fair two_backends 1 (omega arith) (omega arith)
