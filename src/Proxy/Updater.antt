-- ===== src/Proxy/Updater.antt =====
-- `proxyBackendUpdater` of proxy_backend.go: the interface through which a rolling deployment changes
-- the backends of the proxies.
use dewy.Common.{ℕ, ◌≡◌, true, arith, text_eq, text_eq_refl}
use dewy.Proxy.{Proxies, add_proxy_backend, remove_proxy_backend}
use dewy.Proxy.Backends.{
  holds, holds-add_proxy_backend, holds-remove_proxy_backend, remove_proxy_backend-fails,
}
use dewy.Container.Deploy.Defs.{BackendUpdater, localhost}
use dewy.Container.Deploy.Rollback.{Counts}

abbrev pub proxy_backend_updater : BackendUpdater Proxies
proxy_backend_updater = record {
  add_backend = add_proxy_backend;
  remove_backend = remove_proxy_backend;
}

text_eq-localhost : text_eq localhost localhost ≡ true
text_eq-localhost = text_eq_refl localhost

-- What one proxy holds is such a count.
pub holds-Counts : (p0 q0 : ℕ) → Counts proxy_backend_updater p0 q0 (holds localhost q0 p0)
holds-Counts p0 q0 = record {
  added = λ p q u.
      ground
        (arith, holds-add_proxy_backend localhost localhost q q0 p p0 u, text_eq_refl localhost);
  removed = λ p q u. ground (
    arith,
    holds-remove_proxy_backend localhost localhost q q0 p p0 u,
    remove_proxy_backend-fails localhost q p u,
    text_eq_refl localhost,
  );
}
