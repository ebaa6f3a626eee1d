-- ===== src/Container/Ports.antt =====
-- `ResolvePortMappings` of container/deploy.go.
use mathlib.Core.Option.{some-injective}
use mathlib.Core.Path.{subst}
use dewy.Common.{
  ℕ, ◌≡◌, refl, inl, inr, Bool, false, Option, none, some, List, [], ◌∷◌, map, arith, ◌==◌,
  if◌then◌else◌, Bool-cases, any_of, ◌⊎◌, ◌≢◌, eq_of_==,
}
use dewy.Container.Deploy.Defs.{PortMapping}

unfoldable pub needs_auto_detect : List PortMapping → Bool
needs_auto_detect mappings = any_of (λ (m : PortMapping). m.container_port == 0) mappings

unfoldable pub resolve_mapping : ℕ → PortMapping → PortMapping
resolve_mapping detected_port mapping =
    if mapping.container_port == 0
    then record { proxy_port = mapping.proxy_port; container_port = detected_port }
    else mapping

-- The answer of `GetImageExposedPorts` is `none` for an error.
unfoldable pub resolve_with : Option (List ℕ) → List PortMapping → Option (List PortMapping)
resolve_with none mappings = none
resolve_with (some []) mappings = none
resolve_with (some (p ∷ [])) mappings = some (map (resolve_mapping p) mappings)
resolve_with (some (p ∷ q ∷ ports)) mappings = none

unfoldable pub resolve_port_mappings :
    Option (List ℕ) → List PortMapping → Option (List PortMapping)
resolve_port_mappings exposed [] = none
resolve_port_mappings exposed (m ∷ mappings) =
    if needs_auto_detect (m ∷ mappings)
    then resolve_with exposed (m ∷ mappings)
    else some (m ∷ mappings)

-- A mapping keeps its proxy port. Its container port is kept as well where it is given, and else it
-- is the port of the image, which exposes one port only.
pub record IsResolvedAs (exposed : Option (List ℕ)) (m m' : PortMapping) : Type 0 where
  pub proxy_port : m'.proxy_port ≡ m.proxy_port
  pub container_port :
      ((m.container_port ≢ 0) × (m'.container_port ≡ m.container_port))
      ⊎ ((m.container_port ≡ 0) × (exposed ≡ some (m'.container_port ∷ [])))

-- One mapping for each, in their order.
abbrev pub AreResolvedAs : Option (List ℕ) → List PortMapping → List PortMapping → Type 0
AreResolvedAs exposed [] [] = Unit {0}
AreResolvedAs exposed [] (m' ∷ resolved) = ⊥
AreResolvedAs exposed (m ∷ mappings) [] = ⊥
AreResolvedAs exposed (m ∷ mappings) (m' ∷ resolved) =
    IsResolvedAs exposed m m' × AreResolvedAs exposed mappings resolved

resolve_mapping-IsResolvedAs :
    (p : ℕ) (m : PortMapping) → IsResolvedAs (some (p ∷ [])) m (resolve_mapping p m)
unfolding resolve_mapping
resolve_mapping-IsResolvedAs p m = elim (Bool-cases (m.container_port == 0)) [
  | inl y ↦
      rw y
        (record { proxy_port = refl; container_port = inr (eq_of_== m.container_port 0 y, refl) })
  | inr n ↦ rw n (record { proxy_port = refl; container_port = inl (λ e. ground arith, refl) })
]

mapped-AreResolvedAs :
    (p : ℕ) (mappings : List PortMapping)
    → AreResolvedAs (some (p ∷ [])) mappings (map (resolve_mapping p) mappings)
mapped-AreResolvedAs p [] = tt
mapped-AreResolvedAs p (m ∷ mappings) =
    (resolve_mapping-IsResolvedAs p m, mapped-AreResolvedAs p mappings)

explicit-AreResolvedAs :
    (exposed : Option (List ℕ)) (mappings : List PortMapping)
    → needs_auto_detect mappings ≡ false
    → AreResolvedAs exposed mappings mappings
unfolding needs_auto_detect
explicit-AreResolvedAs exposed [] h = tt
explicit-AreResolvedAs exposed (m ∷ mappings) h = (
  record { proxy_port = refl; container_port = inl (λ e. ground arith, refl) },
  explicit-AreResolvedAs exposed mappings (ground arith),
)

resolve_with-AreResolvedAs :
    (exposed : Option (List ℕ)) (mappings resolved : List PortMapping)
    → resolve_with exposed mappings ≡ some resolved
    → AreResolvedAs exposed mappings resolved
unfolding resolve_with
resolve_with-AreResolvedAs none mappings resolved e = absurd (cc)
resolve_with-AreResolvedAs (some []) mappings resolved e = absurd (cc)
resolve_with-AreResolvedAs (some (p ∷ [])) mappings resolved e =
    subst (AreResolvedAs (some (p ∷ [])) mappings)
      (some-injective (map (resolve_mapping p) mappings) resolved e)
      (mapped-AreResolvedAs p mappings)
resolve_with-AreResolvedAs (some (p ∷ q ∷ ports)) mappings resolved e = absurd (cc)

-- Port mappings that are resolved are one for each of those that were asked for, in their order,
-- with its proxy port: a container port that was given is kept, and one that was left to be detected
-- is the port of an image that exposes this port and no other.
pub resolve_port_mappings-AreResolvedAs :
    (exposed : Option (List ℕ)) (mappings resolved : List PortMapping)
    → resolve_port_mappings exposed mappings ≡ some resolved
    → AreResolvedAs exposed mappings resolved
unfolding resolve_port_mappings
resolve_port_mappings-AreResolvedAs exposed [] resolved e = absurd (cc)
resolve_port_mappings-AreResolvedAs exposed (m ∷ mappings) resolved e =
    elim (Bool-cases (needs_auto_detect (m ∷ mappings))) [
      | inl y ↦ resolve_with-AreResolvedAs exposed (m ∷ mappings) resolved (rw y at e)
      | inr n ↦
          let same : some (m ∷ mappings) ≡ some resolved = rw n at e in
          subst (AreResolvedAs exposed (m ∷ mappings)) (some-injective (m ∷ mappings) resolved same)
            (explicit-AreResolvedAs exposed (m ∷ mappings) n)
    ]
