-- ===== src/Notifier/Choice.antt =====
-- What `New` of notifier/notifier.go makes of its URL.
use dewy.Common.{
  [], ◌⊎◌, Bool-cases, text_eq, eq_of_text_eq, has_prefix, ◌≡◌, refl, ◌≢◌, ◌↔◌, inl, inr, Bool,
  true, false, Option, none, some, Option-cases, Text, codes, split_once,
}
use dewy.Notifier.{Underlying, panicked, Kind, null, slack, mail, other, kind_of, make_sender, new}

-- A scheme without what follows it, that is no notifier without a URL.
unfoldable needs_url : Kind → Bool
needs_url null = false
needs_url slack = true
needs_url mail = true
needs_url other = false

-- A URL that is no more than the name of a notifier that needs one.
abbrev pub NamesOne : Text → Type 0
NamesOne url = (url ≡ codes "slack") ⊎ (url ≡ codes "mail") ⊎ (url ≡ codes "smtp")

module _ (new_slack new_mail : Text → Option Underlying) (parse_quiet_flag : Text → Bool) where
  make_sender-total :
      (k : Kind) (rest : Text)
      → make_sender new_slack new_mail parse_quiet_flag k (some rest) ≢ panicked
  unfolding make_sender
  make_sender-total null rest h = cc
  make_sender-total slack rest h = cc
  make_sender-total mail rest h = cc
  make_sender-total other rest h = cc

  make_sender-panics :
      (k : Kind)
      → (make_sender new_slack new_mail parse_quiet_flag k none ≡ panicked) ↔ (needs_url k ≡ true)
  unfolding make_sender needs_url
  make_sender-panics null = (λ h. absurd (cc), λ h. absurd (cc))
  make_sender-panics slack = (λ h. refl, λ h. refl)
  make_sender-panics mail = (λ h. refl, λ h. refl)
  make_sender-panics other = (λ h. absurd (cc), λ h. absurd (cc))

  kind_of-needs_url : (url : Text) → needs_url (kind_of url) ≡ true → NamesOne url
  unfolding kind_of needs_url
  kind_of-needs_url url h = elim (Bool-cases (text_eq url [])) [
    | inl y ↦ let no : false ≡ true = rw y at h in absurd (cc)
    | inr n ↦ elim (Bool-cases (text_eq url (codes "slack"))) [
      | inl y ↦ inl (eq_of_text_eq url (codes "slack") y)
      | inr m ↦ elim (Bool-cases (text_eq url (codes "mail"))) [
        | inl y ↦ inr (inl (eq_of_text_eq url (codes "mail") y))
        | inr k ↦ elim (Bool-cases (text_eq url (codes "smtp"))) [
          | inl y ↦ inr (inr (eq_of_text_eq url (codes "smtp") y))
          | inr l ↦ let no : false ≡ true = rw (n, m, k, l) at h in absurd (cc)
        ]
      ]
    ]
  ]

  named-panics :
      (url : Text) → NamesOne url → new new_slack new_mail parse_quiet_flag url ≡ panicked
  unfolding new make_sender kind_of split_once text_eq has_prefix
  named-panics url (inl e) = rw e refl
  named-panics url (inr (inl e)) = rw e refl
  named-panics url (inr (inr e)) = rw e refl

  -- `New` panics at an index out of range exactly where the whole URL is slack, mail or smtp.
  pub new-panics :
      (url : Text) → (new new_slack new_mail parse_quiet_flag url ≡ panicked) ↔ NamesOne url
  unfolding new
  new-panics url = (
    λ h. elim (Option-cases (split_once (codes "://") url)) [
      | inl missing ↦
          kind_of-needs_url url ((make_sender-panics (kind_of url)).0 (rw (missing, new) at h))
      | inr ((scheme, rest), found) ↦
          absurd (make_sender-total (kind_of scheme) rest (rw (found, new) at h))
    ],
    named-panics url,
  )
