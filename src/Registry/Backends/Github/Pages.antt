-- ===== src/Registry/Backends/Github/Pages.antt =====
-- The loop over the pages in `latest` of registry/ghr.go.
use dewy.Common.{
  ℕ, zero, suc, ◌+◌, ◌≤◌, ◌<◌, ◌≡◌, refl, ◌≢◌, ◌⊎◌, inl, inr, Bool, true, false, Option, some, List,
  [], ◌∷◌, ◌++◌, arith, ◌==◌, if◌then◌else◌, Bool-cases, Option-cases, append_assoc, ◌∙◌, eq_of_==,
}
use dewy.Registry.Backends.Github.{
  Release, Page, Listing, list_failed, unfinished, listed, non_drafts, list_from,
}

-- The releases that are no drafts, in their order.
pub data AreNonDrafts : List Release → List Release → Type 0 where
  no_more : AreNonDrafts [] []
  kept :
      (r : Release) (rs ks : List Release)
      → r.is_draft ≡ false
      → AreNonDrafts rs ks
      → AreNonDrafts (r ∷ rs) (r ∷ ks)
  left_out :
      (r : Release) (rs ks : List Release)
      → r.is_draft ≡ true
      → AreNonDrafts rs ks
      → AreNonDrafts (r ∷ rs) ks

AreNonDrafts-if :
    (r : Release) (rs ks : List Release) (b : Bool)
    → r.is_draft ≡ b
    → AreNonDrafts rs ks
    → AreNonDrafts (r ∷ rs) (if b then ks else r ∷ ks)
AreNonDrafts-if r rs ks true e h = left_out r rs ks e h
AreNonDrafts-if r rs ks false e h = kept r rs ks e h

non_drafts-AreNonDrafts : (rs : List Release) → AreNonDrafts rs (non_drafts rs)
unfolding non_drafts
non_drafts-AreNonDrafts [] = no_more
non_drafts-AreNonDrafts (r ∷ rs) =
    AreNonDrafts-if r rs (non_drafts rs) r.is_draft refl (non_drafts-AreNonDrafts rs)

-- The releases that are no drafts of the page with the number and of all pages after it, up to the
-- one that names no next page.
pub data Pages (list_releases : ℕ → Option Page) : ℕ → List Release → Type 0 where
  last_page :
      (page : ℕ) (p : Page) (ks : List Release)
      → list_releases page ≡ some p
      → p.next_page ≡ 0
      → AreNonDrafts p.releases ks
      → Pages list_releases page ks
  page_before :
      (page : ℕ) (p : Page) (ks rest all : List Release)
      → list_releases page ≡ some p
      → p.next_page ≢ 0
      → AreNonDrafts p.releases ks
      → Pages list_releases p.next_page rest
      → all ≡ ks ++ rest
      → Pages list_releases page all

module _ (list_releases : ℕ → Option Page) where
  -- What is listed, after some releases, is what the pages from a number on have.
  abbrev pub Walked : ℕ → List Release → Listing → Type 0
  Walked page seen list_failed = Unit {0}
  Walked page seen unfinished = Unit {0}
  Walked page seen (listed rs) =
      (rest : List Release) × (rs ≡ seen ++ rest) × Pages list_releases page rest

  further :
      (page : ℕ) (p : Page) (seen : List Release) (l : Listing)
      → list_releases page ≡ some p
      → (p.next_page == 0) ≡ false
      → Walked p.next_page (seen ++ non_drafts p.releases) l
      → Walked page seen l
  further page p seen list_failed e n h = tt
  further page p seen unfinished e n h = tt
  further page p seen (listed rs) e n (rest, same, pages) = (
    non_drafts p.releases ++ rest,
    same ∙ append_assoc seen (non_drafts p.releases) rest,
    page_before page p (non_drafts p.releases) rest _ e (λ z. ground arith)
        (non_drafts-AreNonDrafts p.releases) pages refl,
  )

  pub list_from-Walked :
      (rounds page : ℕ) (seen : List Release)
      → Walked page seen (list_from list_releases rounds page seen)
  unfolding list_from
  list_from-Walked zero page seen = tt
  list_from-Walked (suc rounds) page seen = elim (Option-cases (list_releases page)) [
    | inl failed ↦ rw (failed, list_from) tt
    | inr (p, e) ↦ elim (Bool-cases (p.next_page == 0)) [
      | inl y ↦
          rw (e, y, list_from)
            (
              non_drafts p.releases,
              refl,
              last_page page p (non_drafts p.releases) e (eq_of_== p.next_page 0 y)
                  (non_drafts-AreNonDrafts p.releases),
            )
      | inr n ↦
          rw (e, n, list_from)
            (further page p seen _ e n
              (list_from-Walked rounds p.next_page (seen ++ non_drafts p.releases)))
    ]
  ]

  list_from-round :
      (rounds page : ℕ) (all : List Release)
      → ((p : Page)
          → list_releases page ≡ some p
          → (p.next_page == 0) ≡ false
          → list_from list_releases rounds p.next_page (all ++ non_drafts p.releases) ≢ unfinished)
      → list_from list_releases (suc rounds) page all ≢ unfinished
  unfolding list_from
  list_from-round rounds page all rest = elim (Option-cases (list_releases page)) [
    | inl failed ↦ rw (failed, list_from) (λ e. cc)
    | inr (p, e) ↦ elim (Bool-cases (p.next_page == 0)) [
      | inl y ↦ rw (e, y, list_from) (λ k. cc)
      | inr n ↦ rw (e, n, list_from) (rest p e n)
    ]
  ]

  -- The number of the next page is larger than that of the page, and none is larger than `last`.
  abbrev pub GoesOn : ℕ → Type 0
  GoesOn last =
      (page : ℕ) (p : Page)
      → list_releases page ≡ some p
      → (p.next_page ≡ 0) ⊎ ((page < p.next_page) × (p.next_page ≤ last))

  next_of :
      (last page : ℕ) (p : Page)
      → GoesOn last
      → list_releases page ≡ some p
      → (p.next_page == 0) ≡ false
      → (page < p.next_page) × (p.next_page ≤ last)
  next_of last page p goes_on e n = elim (goes_on page p e) [
    | inl z ↦ absurd (ground arith)
    | inr k ↦ k
  ]

  pub list_from_total :
      (last rounds page : ℕ) (all : List Release)
      → GoesOn last
      → last < rounds + page
      → list_from list_releases (suc rounds) page all ≢ unfinished
  list_from_total last zero page all goes_on h =
      list_from-round zero page all
        (λ p e n. absurd (omega (arith, next_of last page p goes_on e n)))
  list_from_total last (suc rounds) page all goes_on h =
      list_from-round (suc rounds) page all (λ p e n.
        list_from_total last rounds p.next_page (all ++ non_drafts p.releases) goes_on
          (omega (arith, next_of last page p goes_on e n)))
