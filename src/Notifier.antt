-- ===== src/Notifier.antt =====
-- notifier/notifier.go: the sender that limits error notifications, and the choice of what it wraps.
use dewy.Common.{
  ℕ, zero, suc, ◌+◌, ◌-◌, ◌*◌, ◌/◌, ◌%◌, ◌^◌, ◌≤◌, ◌<◌, Ordering, lt, eq, gt, ◌≡◌, refl, sym, ap,
  ◌∙◌, ◌≢◌, ◌↔◌, ◌⊎◌, inl, inr, Bool, true, false, not, ◌&&◌, ◌||◌, Option, none, some, List, [],
  ◌∷◌, ◌++◌, append_assoc, append-nil, map, arith, ltb, leb, ◌==◌, if◌then◌else◌, Bool-cases,
  Option-cases, &&-true, ltb→lt, lt→ltb, eq_of_==, ==-refl, length, get_elem?, take, drop,
  length-append, take-append-drop, length-drop, any_of, all_of, All, All-append, All-map,
  All-weaken, All-flat_map, In, In-append_left, In-append_right, In-append-cases, All-at, Text,
  codes, text_eq, has_prefix, has_suffix, trim_prefix, split_once, contains, to_lower, split,
  eq_of_text_eq, text_eq_refl, text_eq_iff, has_prefix-drop, has_prefix-append, ℤ, pos, negsuc,
  max_int, pos_part, neg_part, int_sub, sign, int_cmp, ◌>>=◌, ◌>>◌, Returns, Returns-some,
  Returns-bind, bind_of_some, some_of_bind,
}
pub mod Limits
pub mod Notices
pub mod Choice

-- `HookResult`, without the streams and the duration, which the message only prints.
pub record HookResult : Type 0 where
  pub command : Text
  pub exit_code : ℤ
  pub success : Bool

-- What is sent, by what it is made of; `last` is the notice that no more errors will follow.
pub data Message : Type 0 where
  plain : Text → Message
  error_occurred : (last : Bool) → ℕ → Text → Message
  hook_text : Text → HookResult → Message

-- A call of the wrapped sender.
pub data Sent : Type 0 where
  sent broadcast : Message → Sent
  attached : Text → HookResult → Sent
  deployed_in : Text → Sent

-- Whether the wrapped sender is a `BroadcastSender` and an `AttachmentSender`, and has an `OnDeploy`.
pub record Underlying : Type 0 where
  pub can_broadcast : Bool
  pub can_attach : Bool
  pub has_on_deploy : Bool

abbrev pub max_notify_errors : ℕ
max_notify_errors = 3

abbrev pub max_error_count : ℕ
max_error_count = 1000

-- `ErrorLimitingSender` with what its wrapped sender was called for.
pub record ErrorLimitingSender : Type 0 where
  pub underlying : Underlying
  pub error_count : ℕ
  pub quiet : Bool
  pub outbox : List Sent

pub data Call : Type 0 where
  send send_important send_error : Text → Call
  send_hook_result : Text → HookResult → Call
  reset_error_count : Call
  on_deploy : Text → Call

unfoldable pub post : Sent → ErrorLimitingSender → ErrorLimitingSender
post m e = record e { outbox = e.outbox ++ m ∷ [] }

-- `Send`
unfoldable pub call_send : Text → ErrorLimitingSender → ErrorLimitingSender
call_send message e = if e.error_count == 0 && not e.quiet then post (sent (plain message)) e else e

-- `SendImportant`
unfoldable pub call_send_important : Text → ErrorLimitingSender → ErrorLimitingSender
call_send_important message e = if e.error_count == 0 then post (sent (plain message)) e else e

-- `sendMsg` of `SendError`
unfoldable pub send_msg : Message → ErrorLimitingSender → ErrorLimitingSender
send_msg m e = if e.underlying.can_broadcast then post (broadcast m) e else post (sent m) e

-- `SendError`
unfoldable pub call_send_error : Text → ErrorLimitingSender → ErrorLimitingSender
call_send_error err e =
    let count = if ltb e.error_count max_error_count then e.error_count + 1 else e.error_count in
    let e' = record e { error_count = count } in
    if ltb count max_notify_errors
    then send_msg (error_occurred false count err) e'
    else if count == max_notify_errors
    then send_msg (error_occurred true count err) e'
    else e'

-- `ResetErrorCount`
unfoldable pub call_reset_error_count : ErrorLimitingSender → ErrorLimitingSender
call_reset_error_count e = if ltb 0 e.error_count then record e { error_count = 0 } else e

-- `SendHookResult`
unfoldable pub call_send_hook_result : Text → HookResult → ErrorLimitingSender → ErrorLimitingSender
call_send_hook_result hook_type result e =
    if e.error_count == 0
    then if e.quiet && result.success
      then e
      else if e.underlying.can_attach
      then post (attached hook_type result) e
      else post (sent (hook_text hook_type result)) e
    else e

-- `OnDeploy`
unfoldable pub call_on_deploy : Text → ErrorLimitingSender → ErrorLimitingSender
call_on_deploy dir e = if e.underlying.has_on_deploy then post (deployed_in dir) e else e

unfoldable pub call : Call → ErrorLimitingSender → ErrorLimitingSender
call (send message) e = call_send message e
call (send_important message) e = call_send_important message e
call (send_error err) e = call_send_error err e
call (send_hook_result hook_type result) e = call_send_hook_result hook_type result e
call reset_error_count e = call_reset_error_count e
call (on_deploy dir) e = call_on_deploy dir e

unfoldable pub calls : List Call → ErrorLimitingSender → ErrorLimitingSender
calls [] e = e
calls (c ∷ cs) e = calls cs (call c e)

-- What `New` returns, or its panic at an index out of range.
pub data NewSender : Type 0 where
  made : Underlying → Bool → NewSender
  unsupported panicked : NewSender

pub data Kind : Type 0 where
  null slack mail other : Kind

-- The `switch` over the scheme.
unfoldable pub kind_of : Text → Kind
kind_of scheme =
    if text_eq scheme []
    then null
    else if text_eq scheme (codes "slack")
    then slack
    else if text_eq scheme (codes "mail") || text_eq scheme (codes "smtp")
    then mail
    else other

abbrev null_sender : Underlying
null_sender = record { can_broadcast = false; can_attach = false; has_on_deploy = true }

-- `NewSlack`, `NewMail` and `parseQuietFlag`; where a constructor has an error the sender is `Null`.
module _ (new_slack new_mail : Text → Option Underlying) (parse_quiet_flag : Text → Bool) where
  unfoldable pub sender_or_null : Option Underlying → Underlying
  sender_or_null none = null_sender
  sender_or_null (some u) = u

  unfoldable pub make_sender : Kind → Option Text → NewSender
  make_sender null none = made null_sender false
  make_sender null (some rest) = made null_sender (parse_quiet_flag rest)
  make_sender slack none = panicked
  make_sender slack (some rest) = made (sender_or_null (new_slack rest)) (parse_quiet_flag rest)
  make_sender mail none = panicked
  make_sender mail (some rest) = made (sender_or_null (new_mail rest)) (parse_quiet_flag rest)
  make_sender other rest = unsupported

  unfoldable pub new : Text → NewSender
  new url = elim (split_once (codes "://") url) [
    | none ↦ make_sender (kind_of url) none
    | some (scheme, rest) ↦ make_sender (kind_of scheme) (some rest)
  ]
