-- ===== src/Registry/Latest.antt =====
-- The loop that both `FindLatestSemVerWithSlot` and `FindLatestCalVerWithSlot` of package registry
-- run over the names, and what it finds.
use dewy.Common.{
  In-append_right, append-nil, Bool, true, false, Option, none, some, List, [], ◌∷◌, ◌++◌, Text,
  if◌then◌else◌, Ordering, lt, eq, gt, ◌≡◌, ◌≢◌, inl, inr, refl, arith, In, In-append-cases,
  In-append_left, append_assoc, Bool-cases,
}
use dewy.Order.Base.{IsOrder, self-eq, lt_of_le_of_lt}

module _ {A : Type 0} (candidate : Text → Option A) (is_later : A → A → Bool) where
  -- One round: `latest` is what `latestVersion` and `latestName` hold, `none` for nil.
  unfoldable pub step : Text → Option A → Option (A × Text) → Option (A × Text)
  step name none latest = latest
  step name (some ver) none = some (ver, name)
  step name (some ver) (some (latest, latest_name)) =
      if is_later ver latest then some (ver, name) else some (latest, latest_name)

  unfoldable pub find_latest_from : List Text → Option (A × Text) → Option (A × Text)
  unfolding step
  find_latest_from [] latest = latest
  find_latest_from (name ∷ names) latest =
      find_latest_from names (step name (candidate name) latest)

  unfoldable pub find_latest : List Text → Option (A × Text)
  unfolding find_latest_from
  find_latest names = find_latest_from names none

abbrev pub is_gt : Ordering → Bool
is_gt lt = false
is_gt eq = false
is_gt gt = true

-- The name stands in the list and may be chosen, each candidate before it is lower, and no
-- candidate after it is higher.
pub record IsLatest {A : Type 0} (candidate : Text → Option A) (cmp : A → A → Ordering)
    (names : List Text) (ver : A) (name : Text) : Type 0 where
  pub before : List Text
  pub after : List Text
  pub position : names ≡ before ++ name ∷ after
  pub chosen : candidate name ≡ some ver
  pub lower : (n : Text) (w : A) → In n before → candidate n ≡ some w → cmp w ver ≡ lt
  pub not_higher : (n : Text) (w : A) → In n after → candidate n ≡ some w → cmp w ver ≢ gt

gt_of_is_gt : (o : Ordering) → is_gt o ≡ true → o ≡ gt
gt_of_is_gt o h = ground arith

ne_gt_of_is_gt : (o : Ordering) → is_gt o ≡ false → o ≢ gt
ne_gt_of_is_gt o h = ground arith

chosen-In :
    {A : Type 0} {candidate : Text → Option A} {cmp : A → A → Ordering} {names : List Text}
    {ver : A} {name : Text}
    → IsLatest candidate cmp names ver name
    → In name names
chosen-In {name} h = rw h.position (In-append_right name h.before (name ∷ h.after) (inl refl))

abbrev pub HasNone : {A : Type 0} → (Text → Option A) → List Text → Type 0
HasNone candidate names = (n : Text) → In n names → candidate n ≡ none

-- What the search returns: the latest, or nothing where no name may be chosen.
abbrev pub Finds :
    {A : Type 0} → (Text → Option A) → (A → A → Ordering) → List Text → Option (A × Text) → Type 0
Finds candidate cmp names none = HasNone candidate names
Finds candidate cmp names (some (ver, name)) = IsLatest candidate cmp names ver name

module _ {A : Type 0} (candidate : Text → Option A) (is_later : A → A → Bool)
    (cmp : A → A → Ordering) (order : IsOrder cmp) (Good : A → Type 0)
    (later : (a b : A) → Good a → Good b → is_later a b ≡ is_gt (cmp a b)) where
  not_higher-all :
      {names : List Text} {ver : A} {name : Text} (found : IsLatest candidate cmp names ver name)
      (n : Text) (w : A)
      → In n names
      → candidate n ≡ some w
      → cmp w ver ≢ gt
  not_higher-all {names} {ver} {name} found n w m c =
      elim (In-append-cases n found.before (name ∷ found.after) (rw found.position at m)) [
        | inl early ↦ λ e. cc (found.lower n w early c)
        | inr (inl here) ↦ λ e. cc (found.chosen, self-eq order ver)
        | inr (inr late) ↦ found.not_higher n w late c
      ]

  Finds-skip :
      (seen : List Text) (name : Text) (latest : Option (A × Text))
      → candidate name ≡ none
      → Finds candidate cmp seen latest
      → Finds candidate cmp (seen ++ name ∷ []) latest
  Finds-skip seen name none c h = λ n m. elim (In-append-cases n seen (name ∷ []) m) [
    | inl early ↦ h n early
    | inr (inl here) ↦ rw here c
    | inr (inr late) ↦ absurd late
  ]
  Finds-skip seen name (some (ver, latest_name)) c h = record {
    before = h.before;
    after = h.after ++ name ∷ [];
    position = rw h.position (append_assoc h.before (latest_name ∷ h.after) (name ∷ []));
    chosen = h.chosen;
    lower = h.lower;
    not_higher = λ n w m e. elim (In-append-cases n h.after (name ∷ []) m) [
      | inl early ↦ h.not_higher n w early e
      | inr (inl here) ↦ absurd (cc)
      | inr (inr late) ↦ absurd late
    ];
  }

  -- A candidate that no earlier one is.
  IsLatest-first :
      (seen : List Text) (name : Text) (ver : A)
      → candidate name ≡ some ver
      → HasNone candidate seen
      → IsLatest candidate cmp (seen ++ name ∷ []) ver name
  IsLatest-first seen name ver c h = record {
    before = seen;
    after = [];
    position = refl;
    chosen = c;
    lower = λ n w m e. absurd (cc (h n m));
    not_higher = λ n w m e. absurd m;
  }

  IsLatest-higher :
      (seen : List Text) (name latest_name : Text) (ver latest : A)
      → candidate name ≡ some ver
      → cmp ver latest ≡ gt
      → IsLatest candidate cmp seen latest latest_name
      → IsLatest candidate cmp (seen ++ name ∷ []) ver name
  IsLatest-higher seen name latest_name ver latest c higher h = record {
    before = seen;
    after = [];
    position = refl;
    chosen = c;
    lower = λ n w m e.
        lt_of_le_of_lt order w latest ver (not_higher-all h n w m e)
          (rw (order.flips ver latest, higher));
    not_higher = λ n w m e. absurd m;
  }

  IsLatest-not_higher :
      (seen : List Text) (name latest_name : Text) (ver latest : A)
      → candidate name ≡ some ver
      → cmp ver latest ≢ gt
      → IsLatest candidate cmp seen latest latest_name
      → IsLatest candidate cmp (seen ++ name ∷ []) latest latest_name
  IsLatest-not_higher seen name latest_name ver latest c low h = record {
    before = h.before;
    after = h.after ++ name ∷ [];
    position = rw h.position (append_assoc h.before (latest_name ∷ h.after) (name ∷ []));
    chosen = h.chosen;
    lower = h.lower;
    not_higher = λ n w m e. elim (In-append-cases n h.after (name ∷ []) m) [
      | inl early ↦ h.not_higher n w early e
      | inr (inl here) ↦ λ g. low (cc)
      | inr (inr late) ↦ absurd late
    ];
  }

  Finds-step :
      (seen : List Text) (name : Text) (latest : Option (A × Text))
      → ((n : Text) (w : A) → In n (seen ++ name ∷ []) → candidate n ≡ some w → Good w)
      → Finds candidate cmp seen latest
      → Finds candidate cmp
          (seen ++ name ∷ [])
          (step candidate is_later name (candidate name) latest)
  unfolding step
  Finds-step seen name latest good h = go (candidate name) refl latest h
    where
      compared :
          (ver found : A) (found_name : Text)
          → candidate name ≡ some ver
          → IsLatest candidate cmp seen found found_name
          → is_later ver found ≡ is_gt (cmp ver found)
      compared ver found found_name c k =
          later ver found (good name ver (In-append_right name seen (name ∷ []) (inl refl)) c) (
            good found_name found (In-append_left found_name seen (name ∷ []) (chosen-In k))
              k.chosen)

      go :
          (o : Option A)
          → candidate name ≡ o
          → (l : Option (A × Text)) → Finds candidate cmp seen l
          → Finds candidate cmp (seen ++ name ∷ []) (step candidate is_later name o l)
      go none c l k = Finds-skip seen name l c k
      go (some ver) c none k = IsLatest-first seen name ver c k
      go (some ver) c (some (found, found_name)) k = elim (Bool-cases (is_later ver found)) [
        | inl higher ↦ rw higher (
            IsLatest-higher seen name found_name ver found c
              (gt_of_is_gt _ (cc (compared ver found found_name c k))) k)
        | inr low ↦ rw low (
            IsLatest-not_higher seen name found_name ver found c
              (ne_gt_of_is_gt _ (cc (compared ver found found_name c k))) k)
      ]

  Finds-find_latest_from :
      (seen names : List Text) (latest : Option (A × Text))
      → ((n : Text) (w : A) → In n (seen ++ names) → candidate n ≡ some w → Good w)
      → Finds candidate cmp seen latest
      → Finds candidate cmp (seen ++ names) (find_latest_from candidate is_later names latest)
  unfolding find_latest_from
  Finds-find_latest_from seen [] latest good h = rw append-nil h
  Finds-find_latest_from seen (name ∷ names) latest good h =
      let regroup = append_assoc seen (name ∷ []) names in
      rw regroup at (
        Finds-find_latest_from (seen ++ name ∷ []) names
          (step candidate is_later name (candidate name) latest)
          (λ n w m c. good n w (rw regroup at m) c)
          (Finds-step seen name latest
            (λ n w m c. good n w (rw regroup at (In-append_left n (seen ++ name ∷ []) names m)) c)
            h))

  -- The loop finds the latest candidate.
  pub find_latest-Finds :
      (names : List Text)
      → ((n : Text) (w : A) → In n names → candidate n ≡ some w → Good w)
      → Finds candidate cmp names (find_latest candidate is_later names)
  unfolding find_latest
  find_latest-Finds names good = Finds-find_latest_from [] names none good (λ n m. absurd m)
