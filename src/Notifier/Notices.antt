-- ===== src/Notifier/Notices.antt =====
-- The number of error notifications between two resets.
use mathlib.Core.Path.{subst}
use dewy.Common.{
  ℕ, ◌+◌, ◌≡◌, refl, inl, inr, Bool, true, false, not, ◌&&◌, List, [], ◌∷◌, ◌++◌, arith, leb, ◌==◌,
  if◌then◌else◌, Bool-cases, Text,
}
use dewy.Notifier.{
  HookResult, Message, plain, error_occurred, hook_text, Sent, sent, broadcast, attached,
  Underlying, max_notify_errors, Call, send, send_important, send_error, send_hook_result,
  reset_error_count, on_deploy, deployed_in, calls,
}
use dewy.Notifier.Limits.{
  Story, tell, tell_if, error_sent, hook_sent, tell_call, tell_calls, view, calls-view,
}

pub is_notice : Message → ℕ
is_notice (plain text) = 0
is_notice (error_occurred last n err) = 1
is_notice (hook_text hook_type result) = 0

-- How many error notifications were sent.
pub notices : List Sent → ℕ
unfolding is_notice
notices [] = 0
notices (sent m ∷ ms) = is_notice m + notices ms
notices (broadcast m ∷ ms) = is_notice m + notices ms
notices (attached hook_type result ∷ ms) = notices ms
notices (deployed_in dir ∷ ms) = notices ms

-- The errors among calls, and whether one of the calls is a reset.
pub errors_in : List Call → ℕ
errors_in [] = 0
errors_in (send message ∷ cs) = errors_in cs
errors_in (send_important message ∷ cs) = errors_in cs
errors_in (send_error err ∷ cs) = 1 + errors_in cs
errors_in (send_hook_result hook_type result ∷ cs) = errors_in cs
errors_in (reset_error_count ∷ cs) = errors_in cs
errors_in (on_deploy dir ∷ cs) = errors_in cs

unfoldable pub has_reset : List Call → Bool
has_reset [] = false
has_reset (send message ∷ cs) = has_reset cs
has_reset (send_important message ∷ cs) = has_reset cs
has_reset (send_error err ∷ cs) = has_reset cs
has_reset (send_hook_result hook_type result ∷ cs) = has_reset cs
has_reset (reset_error_count ∷ cs) = true
has_reset (on_deploy dir ∷ cs) = has_reset cs

-- At most three.
abbrev pub at_most_three : ℕ → ℕ
at_most_three n = if leb n max_notify_errors then n else max_notify_errors

notices-append : (xs ys : List Sent) → notices (xs ++ ys) ≡ notices xs + notices ys
unfolding notices
notices-append [] ys = omega arith
notices-append (sent m ∷ xs) ys = omega (arith, notices-append xs ys)
notices-append (broadcast m ∷ xs) ys = omega (arith, notices-append xs ys)
notices-append (attached hook_type result ∷ xs) ys = notices-append xs ys
notices-append (deployed_in dir ∷ xs) ys = notices-append xs ys

notices-tell_if :
    (b : Bool) (m : Sent) (t : Story)
    → notices (tell_if b m t).outbox ≡ notices t.outbox + (if b then notices (m ∷ []) else 0)
unfolding tell_if tell
notices-tell_if true m t = notices-append t.outbox (m ∷ [])
notices-tell_if false m t = omega arith

tell_if-errors : (b : Bool) (m : Sent) (t : Story) → (tell_if b m t).errors ≡ t.errors
unfolding tell_if tell
tell_if-errors true m t = refl
tell_if-errors false m t = refl

-- What is sent as an error counts one, and the result of a hook none.
notices-error_sent :
    (u : Underlying) (last : Bool) (n : ℕ) (err : Text)
    → notices (error_sent u (error_occurred last n err) ∷ []) ≡ 1
unfolding notices is_notice
notices-error_sent u last n err = elim (Bool-cases u.can_broadcast) [
  | inl y ↦ rw y refl
  | inr z ↦ rw z refl
]

notices-hook_sent :
    (u : Underlying) (hook_type : Text) (result : HookResult)
    → notices (hook_sent u hook_type result ∷ []) ≡ 0
unfolding notices is_notice
notices-hook_sent u hook_type result = elim (Bool-cases u.can_attach) [
  | inl y ↦ rw y refl
  | inr z ↦ rw z refl
]

-- A message that is no error changes neither count.
silent :
    (b : Bool) (m : Sent) (t : Story) (n x : ℕ)
    → notices (m ∷ []) ≡ 0
    → x + at_most_three (tell_if b m t).errors
      ≡ notices (tell_if b m t).outbox + at_most_three ((tell_if b m t).errors + n)
    → x + at_most_three t.errors ≡ notices t.outbox + at_most_three (t.errors + n)
unfolding tell_if tell
silent true m t n x h k = omega (arith, k, notices-append t.outbox (m ∷ []))
silent false m t n x h k = k

-- An error counts one more, up to three.
told :
    (m : Sent) (t : Story) (n x : ℕ)
    → notices (m ∷ []) ≡ 1
    → x + at_most_three (t.errors + 1)
      ≡ notices
          (tell_if
            (leb (t.errors + 1) max_notify_errors)
            m
            (record t { errors = t.errors + 1 })).outbox
        + at_most_three (t.errors + 1 + n)
    → x + at_most_three t.errors ≡ notices t.outbox + at_most_three (t.errors + (1 + n))
told m t n x h k =
    let e =
      notices-tell_if (leb (t.errors + 1) max_notify_errors) m
        (record t { errors = t.errors + 1 }) in
    grind (arith, e, h, k)

notices-tell_calls :
    (cs : List Call) (t : Story)
    → has_reset cs ≡ false
    → notices (tell_calls cs t).outbox + at_most_three t.errors
      ≡ notices t.outbox + at_most_three (t.errors + errors_in cs)
unfolding tell_calls tell_call errors_in has_reset notices is_notice
notices-tell_calls [] t h = let e : t.errors + 0 ≡ t.errors = omega arith in rw e refl
notices-tell_calls (send message ∷ cs) t h =
    let b = t.errors == 0 && not t.quiet in
    let m = sent (plain message) in
    silent b m t (errors_in cs) _ refl (notices-tell_calls cs (tell_if b m t) h)
notices-tell_calls (send_important message ∷ cs) t h =
    let b = t.errors == 0 in
    let m = sent (plain message) in
    silent b m t (errors_in cs) _ refl (notices-tell_calls cs (tell_if b m t) h)
notices-tell_calls (send_error err ∷ cs) t h =
    let n = t.errors + 1 in
    let m = error_sent t.underlying (error_occurred (n == max_notify_errors) n err) in
    let t' : Story = record t { errors = n } in
    told m t (errors_in cs) _ (notices-error_sent t.underlying (n == max_notify_errors) n err) (
      subst
        (λ (k : ℕ).
          notices (tell_calls cs (tell_if (leb n max_notify_errors) m t')).outbox + at_most_three k
          ≡ notices (tell_if (leb n max_notify_errors) m t').outbox
            + at_most_three (k + errors_in cs))
        (tell_if-errors (leb n max_notify_errors) m t')
        (notices-tell_calls cs (tell_if (leb n max_notify_errors) m t') h))
notices-tell_calls (send_hook_result hook_type result ∷ cs) t h =
    let b = t.errors == 0 && not (t.quiet && result.success) in
    let m = hook_sent t.underlying hook_type result in
    silent b m t (errors_in cs) _ (notices-hook_sent t.underlying hook_type result)
      (notices-tell_calls cs (tell_if b m t) h)
notices-tell_calls (reset_error_count ∷ cs) t h = absurd (cc)
notices-tell_calls (on_deploy dir ∷ cs) t h =
    let b = t.underlying.has_on_deploy in
    let m = deployed_in dir in
    silent b m t (errors_in cs) _ refl (notices-tell_calls cs (tell_if b m t) h)

-- From an empty count on, as many error notifications are sent as there are errors until the next
-- reset, but three at most.
pub notices-calls :
    (cs : List Call) (u : Underlying) (quiet : Bool)
    → has_reset cs ≡ false
    → notices
        (calls cs (record { underlying = u; error_count = 0; quiet = quiet; outbox = [] })).outbox
      ≡ at_most_three (errors_in cs)
unfolding notices view
notices-calls cs u quiet h =
    let t : Story = record { underlying = u; quiet = quiet; errors = 0; outbox = [] } in
    let none_yet : 0 + errors_in cs ≡ errors_in cs = omega arith in
    let counts = notices-tell_calls cs t h in
    let all = rw none_yet at counts in
    let sent_on : notices (tell_calls cs t).outbox ≡ at_most_three (errors_in cs) =
      omega (arith, all) in
    rw (calls-view cs t) sent_on
