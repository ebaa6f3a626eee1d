-- ===== src/Lifecycle/Outcome.antt =====
-- What holds of the result of a phase, and what holds of its error.
use dewy.Common.{◌≡◌, refl, Bool, true, false, if◌then◌else◌}
use dewy.Lifecycle.Outside.{Error, Result, ok, err, and_then}

-- What holds of a result, and what holds of an error.
abbrev pub Outcome :
    {A S : Type 0} → (A → S → Type 0) → (Error → S → Type 0) → Result A × S → Type 0
Outcome P Q (ok a, s) = P a s
Outcome P Q (err e, s) = Q e s

pub Outcome-if :
    {A S : Type 0} (P : A → S → Type 0) (Q : Error → S → Type 0) (b : Bool) (x y : Result A × S)
    → Outcome P Q x
    → Outcome P Q y
    → Outcome P Q (if b then x else y)
Outcome-if P Q true x y h k = h
Outcome-if P Q false x y h k = k

-- The same, where each side may use the outcome of the test.
pub Outcome-if_cases :
    {A S : Type 0} (P : A → S → Type 0) (Q : Error → S → Type 0) (b : Bool) (x y : Result A × S)
    → (b ≡ true → Outcome P Q x)
    → (b ≡ false → Outcome P Q y)
    → Outcome P Q (if b then x else y)
Outcome-if_cases P Q true x y h k = h refl
Outcome-if_cases P Q false x y h k = k refl

pub Outcome-and_then :
    {A B S : Type 0} (P : A → S → Type 0) (P' : B → S → Type 0) (Q : Error → S → Type 0)
    (r : Result A × S) (f : A → S → Result B × S)
    → Outcome P Q r
    → ((a : A) (s : S) → P a s → Outcome P' Q (f a s))
    → Outcome P' Q (and_then r f)
unfolding and_then
Outcome-and_then P P' Q (ok a, s) f h k = k a s h
Outcome-and_then P P' Q (err e, s) f h k = h

pub Outcome-weaken :
    {A S : Type 0} (P P' : A → S → Type 0) (Q Q' : Error → S → Type 0) (r : Result A × S)
    → Outcome P Q r
    → ((a : A) (s : S) → P a s → P' a s)
    → ((e : Error) (s : S) → Q e s → Q' e s)
    → Outcome P' Q' r
Outcome-weaken P P' Q Q' (ok a, s) h p q = p a s h
Outcome-weaken P P' Q Q' (err e, s) h p q = q e s h
