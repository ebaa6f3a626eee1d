-- ===== src/Tests/Notices.antt =====
-- Calls of the notifier.
use dewy.Common.{◌≡◌, refl, ◌↔◌, true, false, none, some, List, [], ◌∷◌, ◌++◌, codes}
use dewy.Notifier.{Underlying, Call, send, send_error, reset_error_count, panicked, new, calls}
use dewy.Notifier.Limits.{Story, tell_calls, view, calls-view}
use dewy.Notifier.Notices.{notices, errors_in, has_reset, at_most_three, notices-calls}
use dewy.Notifier.Choice.{NamesOne, new-panics}

abbrev chat : Underlying
chat = record { can_broadcast = true; can_attach = true; has_on_deploy = true }

abbrev outage : List Call
outage =
    send (codes "a")
    ∷ send_error (codes "b")
    ∷ send_error (codes "c")
    ∷ send (codes "d")
    ∷ send_error (codes "e")
    ∷ send_error (codes "f")
    ∷ []

abbrev start : Story
start = record { underlying = chat; quiet = false; errors = 0; outbox = [] }

calls-view_example :
    calls (outage ++ reset_error_count ∷ send (codes "g") ∷ []) (view start)
    ≡ view (tell_calls (outage ++ reset_error_count ∷ send (codes "g") ∷ []) start)
calls-view_example = calls-view (outage ++ reset_error_count ∷ send (codes "g") ∷ []) start

outage-has_no_reset : has_reset outage ≡ false
unfolding has_reset
outage-has_no_reset = refl

notices-calls_example :
    notices
      (calls outage
        (record { underlying = chat; error_count = 0; quiet = false; outbox = [] })).outbox
    ≡ at_most_three (errors_in outage)
notices-calls_example = notices-calls outage chat false outage-has_no_reset

new-panics_example :
    (new (λ rest. some chat) (λ rest. none) (λ rest. false) (codes "smtp") ≡ panicked)
    ↔ NamesOne (codes "smtp")
new-panics_example = new-panics (λ rest. some chat) (λ rest. none) (λ rest. false) (codes "smtp")
