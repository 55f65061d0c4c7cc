-- ===== src/ProgressReply/Settled.antt =====
-- How often the progress reply is sent, and when no longer.
use minori.Common.{ℕ, ◌≤◌, ◌≡◌, refl, ap, ◌∙◌, List, [], ◌∷◌, ◌++◌, some, true, arith}
use minori.Domain.{Time}
use minori.Events.{StoredEvent}
use minori.ProgressReply.{
  Attempt, not_begun, marking, delivering, over, Progress, Event, timer_fires, marker_answers,
  delivery_answers, settles, turn_passes, start_progress_reply, step_at, step, steps, has_returned,
}

-- Before the marker has answered nothing was sent, afterwards once at most.
abbrev pub limit : Attempt → ℕ
limit not_begun = 0
limit marking = 0
limit delivering = 1
limit over = 1

abbrev pub IsLimited : Progress → Type 0
IsLimited p = p.sends ≤ limit p.attempt

step_at-IsLimited :
    (e : Event) (p : Progress) (a : Attempt)
    → p.attempt ≡ a
    → IsLimited p
    → IsLimited (step_at e p a)
unfolding step_at
step_at-IsLimited timer_fires p not_begun q h = ground arith
step_at-IsLimited timer_fires p a q h = ground arith
step_at-IsLimited (marker_answers r) p marking q h = ground arith
step_at-IsLimited (delivery_answers r) p delivering q h = ground arith
step_at-IsLimited settles p a q h = h
step_at-IsLimited turn_passes p a q h = h
step_at-IsLimited e p a q h = h

returned-sends :
    (e : Event) (p : Progress) (a : Attempt)
    → p.attempt ≡ a
    → has_returned p ≡ true
    → (has_returned (step_at e p a) ≡ true) × ((step_at e p a).sends ≡ p.sends)
unfolding step_at
returned-sends timer_fires p not_begun q h = ground arith
returned-sends timer_fires p a q h = ground arith
returned-sends (marker_answers r) p marking q h = ground arith
returned-sends (delivery_answers r) p delivering q h = ground arith
returned-sends settles p a q h = ground arith
returned-sends turn_passes p a q h = ground arith
returned-sends e p a q h = (h, refl)

steps-IsLimited : (es : List Event) (p : Progress) → IsLimited p → IsLimited (steps es p)
unfolding steps step
steps-IsLimited [] p h = h
steps-IsLimited (e ∷ es) p h =
    steps-IsLimited es (step e p) (step_at-IsLimited e p p.attempt refl h)

later-sends :
    (es : List Event) (p : Progress) → has_returned p ≡ true → (steps es p).sends ≡ p.sends
unfolding steps step
later-sends [] p h = refl
later-sends (e ∷ es) p h =
    let (r, same) = returned-sends e p p.attempt refl h in later-sends es (step e p) r ∙ same

steps-append : (es fs : List Event) (p : Progress) → steps (es ++ fs) p ≡ steps fs (steps es p)
unfolding steps
steps-append [] fs p = refl
steps-append (e ∷ es) fs p = steps-append es fs (step e p)

start-IsLimited :
    (e : StoredEvent) (now : Time) (p : Progress)
    → start_progress_reply e now ≡ some p
    → IsLimited p
unfolding start_progress_reply
start-IsLimited e now p h = ground arith

-- From the start of a progress reply on, whatever happens and in whatever order, it is sent once at
-- most.
pub progress_sent_once :
    (e : StoredEvent) (now : Time) (p : Progress) (es : List Event)
    → start_progress_reply e now ≡ some p
    → (steps es p).sends ≤ 1
progress_sent_once e now p es h = ground (arith, steps-IsLimited es p (start-IsLimited e now p h))

-- Once `settle` of a progress reply has returned, the reply is never sent afterwards: whatever happens
-- later, it was sent once at most in all, and as often as before.
pub settled_progress_is_silent :
    (e : StoredEvent) (now : Time) (p : Progress) (es fs : List Event)
    → start_progress_reply e now ≡ some p
    → has_returned (steps es p) ≡ true
    → ((steps (es ++ fs) p).sends ≡ (steps es p).sends) × ((steps (es ++ fs) p).sends ≤ 1)
settled_progress_is_silent e now p es fs h r = (
  ap (λ (q : Progress). q.sends) (steps-append es fs p) ∙ later-sends fs (steps es p) r,
  progress_sent_once e now p (es ++ fs) h,
)
