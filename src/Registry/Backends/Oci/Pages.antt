-- ===== src/Registry/Backends/Oci/Pages.antt =====
-- The pages that `listTags` of registry/oci.go follows, and what `Current` answers with.
use mathlib.Core.Path.{subst}
use mathlib.Core.Option.{some-injective}
use dewy.Common.{
  ℕ, zero, suc, ◌≤◌, ◌≡◌, refl, sym, ap, ◌∙◌, ◌↔◌, inl, inr, Option, none, some, List, [], ◌∷◌,
  ◌++◌, append_assoc, append-nil, arith, Option-cases, In, Text, codes, some_of_bind,
}
use dewy.Lifecycle.Outside.{CurrentResponse}
use dewy.Registry.Backends.{Version, find_latest_version, find_latest_version-Among, extract_slot}
use dewy.Registry.Backends.Oci.{
  Oci, Web, max_pagination_pages, fetch_tags_page, list_from, base_url, list_tags, find_latest_tag,
  get_image_digest, response_for, current,
}

-- A walk over so many pages, from a URL to the page that names no next one: the tags of the pages in
-- their order, and the state at the end.
pub data Walk (web : Web) : ℕ → Oci → Text → List Text → Oci → Type 0 where
  end : (o : Oci) → Walk web 0 o [] [] o
  page :
      (n : ℕ) (o o' o'' : Oci) (c : ℕ) (url next : Text) (tags rest all : List Text)
      → fetch_tags_page web o (c ∷ url) ≡ some (o', tags, next)
      → all ≡ tags ++ rest
      → Walk web n o' next rest o''
      → Walk web (suc n) o (c ∷ url) all o''

module _ (web : Web) where
  -- A walk that is found ends within the pages that are allowed.
  abbrev Walked : ℕ → Oci → Text → List Text → Option (Oci × List Text) → Type 0
  Walked k o url seen none = Unit {0}
  Walked k o url seen (some (o', all)) =
      (n : ℕ) × (rest : List Text) × (n ≤ k) × (all ≡ seen ++ rest) × Walk web n o url rest o'

  first_page :
      (k : ℕ) (o o' : Oci) (c : ℕ) (url next : Text) (seen tags : List Text)
      → fetch_tags_page web o (c ∷ url) ≡ some (o', tags, next)
      → (r : Option (Oci × List Text)) → Walked k o' next (seen ++ tags) r
      → Walked (suc k) o (c ∷ url) seen r
  first_page k o o' c url next seen tags e none h = tt
  first_page k o o' c url next seen tags e (some (o'', all)) (n, rest, most, same, w) = (
    suc n,
    tags ++ rest,
    omega arith,
    same ∙ append_assoc seen tags rest,
    page n o o' o'' c url next tags rest (tags ++ rest) e refl w,
  )

  list_from-Walked :
      (k : ℕ) (o : Oci) (url : Text) (seen : List Text)
      → Walked k o url seen (list_from web k o url seen)
  unfolding list_from
  list_from-Walked k o [] seen = (0, [], omega arith, sym (append-nil seen), end o)
  list_from-Walked zero o (c ∷ url) seen = tt
  list_from-Walked (suc k) o (c ∷ url) seen =
      elim (Option-cases (fetch_tags_page web o (c ∷ url))) [
        | inl failed ↦ rw (failed, list_from) tt
        | inr ((o', tags, next), e) ↦
            rw (e, list_from)
              (first_page k o o' c url next seen tags e (list_from web k o' next (seen ++ tags))
                (list_from-Walked k o' next (seen ++ tags)))
      ]

  list_from-Walk :
      (n k : ℕ) (o o' : Oci) (url : Text) (seen rest : List Text)
      → n ≤ k
      → Walk web n o url rest o'
      → list_from web k o url seen ≡ some (o', seen ++ rest)
  unfolding list_from
  list_from-Walk n zero o o' url seen rest h (end p) = rw append-nil refl
  list_from-Walk n (suc k) o o' url seen rest h (end p) = rw append-nil refl
  list_from-Walk n zero o o' url seen rest h (page n' p p' p'' c u next tags rest' all e same w) =
      absurd (omega arith)
  list_from-Walk n (suc k) o o' url seen rest h
        (page n' p p' p'' c u next tags rest' all e same w) =
      rw (e, list_from, same)
        (list_from-Walk n' k p' o' next (seen ++ tags) rest' (omega arith) w
          ∙ ap (λ (ts : List Text). some (o', ts)) (append_assoc seen tags rest'))

  -- `listTags` returns tags exactly where a walk from the first URL ends after a hundred pages at
  -- most, and the tags are those of its pages in their order.
  pub list_tags_iff :
      (o o' : Oci) (tags : List Text)
      → (list_tags web o ≡ some (o', tags))
        ↔ ((n : ℕ) × (n ≤ max_pagination_pages) × Walk web n o (base_url web o) tags o')
  unfolding list_tags
  list_tags_iff o o' tags = (
    λ h.
        let walked = list_from-Walked max_pagination_pages o (base_url web o) [] in
        let (n, rest, most, same, w) = rw h at walked in (n, most, rw same w),
    λ h.
        let (n, most, w) = h in
        list_from-Walk n max_pagination_pages o o' (base_url web o) [] tags most w,
  )

  -- The tag that is found is one of the tags.
  find_latest_tag-In :
      (o : Oci) (tags : List Text) (tag : Text)
      → find_latest_tag web o tags ≡ some tag
      → In tag tags
        × ((v : Version) × (find_latest_version o.calver o.pre_release tags ≡ some (v, tag)))
  unfolding find_latest_tag
  find_latest_tag-In o tags tag h =
      let among = find_latest_version-Among o.calver o.pre_release tags in
      elim (Option-cases (find_latest_version o.calver o.pre_release tags)) [
        | inl missing ↦ let no : none ≡ some tag = rw (missing, find_latest_tag) at h in absurd (cc)
        | inr ((v, name), e) ↦
            let same : some name ≡ some tag = rw (e, find_latest_tag) at h in
            let here : name ≡ tag = some-injective name tag same in
            let m : In name tags = rw e at among in (rw (← here) m, (v, rw (← here) e))
      ]

  -- What `Current` has read before it answers.
  pub record IsCurrent (o o' : Oci) (res : CurrentResponse) : Type 0 where
    pub state : Oci
    pub pages : ℕ
    pub tags : List Text
    pub version : Version
    pub digest : Text
    pub at_most : pages ≤ max_pagination_pages
    pub walk : Walk web pages o (base_url web o) tags state
    pub is_listed : In res.tag tags
    pub is_latest :
        find_latest_version state.calver state.pre_release tags ≡ some (version, res.tag)
    pub is_digest : get_image_digest web state res.tag ≡ some (o', digest)
    pub is_id : res.id ≡ digest
    pub is_url :
        res.artifact_url
        ≡ codes "img://" ++ o.registry ++ codes "/" ++ o.repository ++ codes ":" ++ res.tag
    pub is_slot : res.slot ≡ extract_slot res.tag o.calver

  chain-IsCurrent :
      (o o' s s' : Oci) (res : CurrentResponse) (tags : List Text) (tag digest : Text)
      → list_tags web o ≡ some (s, tags)
      → find_latest_tag web s tags ≡ some tag
      → get_image_digest web s tag ≡ some (s', digest)
      → ◌≡◌ {A = Option (Oci × CurrentResponse)}
          (some (s', response_for web o tag digest))
          (some (o', res))
      → IsCurrent o o' res
  unfolding response_for
  chain-IsCurrent o o' s s' res tags tag digest listed chosen read m =
      let both : ◌≡◌ {A = Oci × CurrentResponse} (s', response_for web o tag digest) (o', res) =
        some-injective _ _ m in
      let same : response_for web o tag digest ≡ res =
        ap (λ (x : Oci × CurrentResponse). x.1) both in
      let (n, most, walk) = (list_tags_iff o s tags).0 listed in
      let (one, (v, e)) = find_latest_tag-In s tags tag chosen in
      subst (λ (r : CurrentResponse). IsCurrent o o' r) same
        (record {
          state = s;
          pages = n;
          tags = tags;
          version = v;
          digest = digest;
          at_most = most;
          walk = walk;
          is_listed = one;
          is_latest = e;
          is_digest = rw (← ap (λ (x : Oci × CurrentResponse). x.0) both) read;
          is_id = refl;
          is_url = refl;
          is_slot = refl;
        })

  current-IsCurrent :
      (o o' : Oci) (res : CurrentResponse) → current web o ≡ some (o', res) → IsCurrent o o' res
  unfolding current
  current-IsCurrent o o' res h =
      let ((s, tags), listed, k) = some_of_bind (list_tags web o) _ (o', res) h in
      let (tag, chosen, l) = some_of_bind (find_latest_tag web s tags) _ (o', res) k in
      let ((s', digest), read, m) = some_of_bind (get_image_digest web s tag) _ (o', res) l in
      chain-IsCurrent o o' s s' res tags tag digest listed chosen read m

  abbrev pub IsAnswered : Oci → Option (Oci × CurrentResponse) → Type 0
  IsAnswered o none = Unit {0}
  IsAnswered o (some (o', res)) = IsCurrent o o' res

  -- `Current` of an image repository returns an error, or it answers with a tag that is listed by a
  -- walk over a hundred pages at most and is found to be the latest version of them, with the digest
  -- that is read for it as the id, the name of the image with this tag as the URL, and the slot of
  -- the tag.
  pub current-IsAnswered : (o : Oci) → IsAnswered o (current web o)
  current-IsAnswered o = elim (Option-cases (current web o)) [
    | inl failed ↦ rw (failed, IsAnswered) tt
    | inr ((o', res), e) ↦ rw (e, IsAnswered) (current-IsCurrent o o' res e)
  ]
