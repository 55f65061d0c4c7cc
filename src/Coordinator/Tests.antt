-- ===== src/Coordinator/Tests.antt =====
-- Two loops find no message at the same time: one of them takes a scheduled run.
use minori.Common.{◌≡◌, refl, List, [], ◌∷◌}
use minori.Coordinator.{
  Event, starts, stops, message_answers, scheduled_answers, wakes, processed, nothing, in_scheduled,
  waiting, ended, initial, steps,
}
use minori.Coordinator.Exclusive.{IsExclusive, steps-IsExclusive}

abbrev events : List Event
events = starts ∷ message_answers 0 nothing ∷ message_answers 1 nothing ∷ []

two_loops : (steps 2 events initial).loops ≡ in_scheduled ∷ waiting ∷ []
unfolding steps initial
two_loops = refl

all_end :
    (steps 2 (stops ∷ scheduled_answers 0 processed ∷ wakes 1 ∷ []) (steps 2 events initial)).loops
    ≡ ended ∷ ended ∷ []
unfolding steps initial
all_end = refl

steps-IsExclusive_example : IsExclusive (steps 2 events initial)
unfolding initial
steps-IsExclusive_example = steps-IsExclusive 2 events initial refl
