-- ===== src/Notifier/Limits.antt =====
-- How many of the errors that the sender of notifier/notifier.go is told are sent on.
use dewy.Common.{
  ℕ, ◌+◌, ◌≡◌, refl, ap, ◌∙◌, inl, inr, Bool, true, false, not, ◌&&◌, List, [], ◌∷◌, ◌++◌, arith,
  ltb, leb, ◌==◌, if◌then◌else◌, Bool-cases, Text,
}
use dewy.Notifier.{
  HookResult, Message, plain, error_occurred, hook_text, Sent, sent, broadcast, attached,
  Underlying, max_notify_errors, max_error_count, ErrorLimitingSender, Call, send, send_important,
  send_error, send_hook_result, reset_error_count, on_deploy, deployed_in, call_on_deploy, post,
  call_send, call_send_important, send_msg, call_send_error, call_reset_error_count,
  call_send_hook_result, call, calls,
}

-- The specification: all errors since the last reset, without a bound.
pub record Story : Type 0 where
  pub underlying : Underlying
  pub quiet : Bool
  pub errors : ℕ
  pub outbox : List Sent

unfoldable pub tell : Sent → Story → Story
tell m t = record t { outbox = t.outbox ++ m ∷ [] }

unfoldable pub tell_if : Bool → Sent → Story → Story
tell_if b m t = if b then tell m t else t

-- An error notification, which is broadcast where the sender can do that.
abbrev pub error_sent : Underlying → Message → Sent
error_sent u m = if u.can_broadcast then broadcast m else sent m

abbrev pub hook_sent : Underlying → Text → HookResult → Sent
hook_sent u hook_type result =
    if u.can_attach then attached hook_type result else sent (hook_text hook_type result)

-- The n-th error since the last reset is sent on if n is at most 3, and the third says that it is
-- the last one. Everything else is sent on while there is no error, in quiet mode only if it is
-- important or the result of a hook that failed. A sender that has an OnDeploy is always told the
-- directory of a deployment.
unfoldable pub tell_call : Call → Story → Story
unfolding tell_if tell
tell_call (send message) t = tell_if (t.errors == 0 && not t.quiet) (sent (plain message)) t
tell_call (send_important message) t = tell_if (t.errors == 0) (sent (plain message)) t
tell_call (send_error err) t =
    tell_if (leb (t.errors + 1) max_notify_errors)
      (error_sent t.underlying
        (error_occurred (t.errors + 1 == max_notify_errors) (t.errors + 1) err))
      (record t { errors = t.errors + 1 })
tell_call (send_hook_result hook_type result) t =
    tell_if (t.errors == 0 && not (t.quiet && result.success))
      (hook_sent t.underlying hook_type result) t
tell_call reset_error_count t = record t { errors = 0 }
tell_call (on_deploy dir) t = tell_if t.underlying.has_on_deploy (deployed_in dir) t

unfoldable pub tell_calls : List Call → Story → Story
tell_calls [] t = t
tell_calls (c ∷ cs) t = tell_calls cs (tell_call c t)

-- The errors as the sender counts them, up to a thousand.
unfoldable counted : ℕ → ℕ
counted n = if ltb n max_error_count then n else max_error_count

-- The state of the sender at a point of the story.
unfoldable pub view : Story → ErrorLimitingSender
unfolding counted
view t = record {
  underlying = t.underlying;
  error_count = counted t.errors;
  quiet = t.quiet;
  outbox = t.outbox;
}

counted-zero : (n : ℕ) → (counted n == 0) ≡ (n == 0)
unfolding counted
counted-zero n = ground arith

counted-suc :
    (n : ℕ)
    → (if ltb (counted n) max_error_count then counted n + 1 else counted n) ≡ counted (n + 1)
unfolding counted
counted-suc n = ground arith

view-tell_if :
    (b : Bool) (m : Sent) (t : Story)
    → (if b then post m (view t) else view t) ≡ view (tell_if b m t)
unfolding post view tell_if tell
view-tell_if true m t = refl
view-tell_if false m t = refl

send_msg-view :
    (m : Message) (t : Story) → send_msg m (view t) ≡ view (tell (error_sent t.underlying m) t)
unfolding send_msg post view tell
send_msg-view m t = elim (Bool-cases t.underlying.can_broadcast) [
  | inl y ↦ rw y refl
  | inr n ↦ rw n refl
]

-- The decision over a count, and the same over all errors.
notify-view :
    (err : Text) (n : ℕ) (t : Story)
    → (if ltb (counted n) max_notify_errors
        then send_msg (error_occurred false (counted n) err) (view t)
        else if counted n == max_notify_errors
        then send_msg (error_occurred true (counted n) err) (view t)
        else view t)
      ≡ view (
          tell_if
            (leb n max_notify_errors)
            (error_sent t.underlying (error_occurred (n == max_notify_errors) n err))
            t)
unfolding tell_if
notify-view err n t = elim (Bool-cases (leb n max_notify_errors)) [
  | inl few ↦
      let same : counted n ≡ n = unfold counted in ground arith in
      elim (Bool-cases (n == max_notify_errors)) [
        | inl y ↦
            let no : ltb n max_notify_errors ≡ false = ground arith in
            rw (same, no, y, few) (send_msg-view _ t)
        | inr z ↦
            let yes : ltb n max_notify_errors ≡ true = ground arith in
            rw (same, yes, z, few) (send_msg-view _ t)
      ]
  | inr many ↦
      let no : ltb (counted n) max_notify_errors ≡ false = unfold counted in ground arith in
      let neither : (counted n == max_notify_errors) ≡ false = unfold counted in ground arith in
      rw (no, neither, many) refl
]

hook-view :
    (hook_type : Text) (result : HookResult) (t : Story)
    → (if t.quiet && result.success
        then view t
        else if t.underlying.can_attach
        then post (attached hook_type result) (view t)
        else post (sent (hook_text hook_type result)) (view t))
      ≡ view (tell_if (not (t.quiet && result.success)) (hook_sent t.underlying hook_type result) t)
unfolding post view tell_if tell
hook-view hook_type result t = elim (Bool-cases (t.quiet && result.success)) [
  | inl y ↦ rw y refl
  | inr n ↦ elim (Bool-cases t.underlying.can_attach) [
    | inl z ↦ rw (n, z) refl
    | inr z ↦ rw (n, z) refl
  ]
]

call_send_hook_result-view :
    (hook_type : Text) (result : HookResult) (t : Story)
    → call_send_hook_result hook_type result (view t)
      ≡ view (tell_call (send_hook_result hook_type result) t)
unfolding call_send_hook_result tell_call view
call_send_hook_result-view hook_type result t = elim (Bool-cases (t.errors == 0)) [
  | inl y ↦ rw (counted-zero t.errors, y) (hook-view hook_type result t)
  | inr n ↦ rw (counted-zero t.errors, n) refl
]

reset-view : (t : Story) → call_reset_error_count (view t) ≡ view (tell_call reset_error_count t)
unfolding call_reset_error_count tell_call view counted
reset-view t = elim (Bool-cases (ltb 0 (counted t.errors))) [
  | inl y ↦ rw (y, call_reset_error_count) refl
  | inr n ↦
      let none_yet : counted t.errors ≡ counted 0 = unfold counted in ground arith in
      rw (n, call_reset_error_count) (ap (λ k. record (view t) { error_count = k }) none_yet)
]

call-view : (c : Call) (t : Story) → call c (view t) ≡ view (tell_call c t)
unfolding call call_on_deploy call_send call_send_important call_send_error view tell_call
call-view (send message) t =
    rw (counted-zero t.errors) (view-tell_if (t.errors == 0 && not t.quiet) _ t)
call-view (send_important message) t = rw (counted-zero t.errors) (view-tell_if (t.errors == 0) _ t)
call-view (send_error err) t =
    rw (counted-suc t.errors) (notify-view err (t.errors + 1) (record t { errors = t.errors + 1 }))
call-view (send_hook_result hook_type result) t = call_send_hook_result-view hook_type result t
call-view reset_error_count t = reset-view t
call-view (on_deploy dir) t = view-tell_if t.underlying.has_on_deploy _ t

-- The sender does what its specification says, whatever it is told: the specification counts all
-- errors since the last reset, and sends on the first three of them, and everything else only while
-- there is none, but the directory of a deployment always where it takes one.
pub calls-view : (cs : List Call) (t : Story) → calls cs (view t) ≡ view (tell_calls cs t)
unfolding calls tell_calls
calls-view [] t = refl
calls-view (c ∷ cs) t = ap (calls cs) (call-view c t) ∙ calls-view cs (tell_call c t)
