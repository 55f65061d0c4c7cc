-- ===== src/Coordinator.antt =====
-- The loops that share the free slots: `createAdmissionCoordinator` of
-- src/worker/admission-coordinator.ts. A loop runs from one `await` to the next without interruption;
-- each such stretch, of any loop, is one step.
pub mod Exclusive
pub mod Tests
use minori.Common.{
  ℕ, zero, suc, List, [], ◌∷◌, ◌++◌, Option, none, some, Bool, true, false, ◌&&◌, ◌||◌, not, ltb,
  if◌then◌else◌,
}

-- Where a loop awaits: `processNext`, `processOne`, the wait; or it has ended.
pub data Phase : Type 0 where
  in_message in_scheduled waiting ended : Phase

-- `stopping`, `scheduledProcessing`, and all loops that were started.
pub record Coordinator : Type 0 where
  pub stopping : Bool
  pub scheduled_processing : Bool
  pub loops : List Phase

-- What an awaited call comes to.
pub data Answer : Type 0 where
  processed nothing threw : Answer

-- What happens: a call of `start` or `stop`, or the loop with a number goes on.
pub data Event : Type 0 where
  starts stops : Event
  message_answers scheduled_answers : ℕ → Answer → Event
  wakes : ℕ → Event

-- `concurrency < 1 || pollMs < 1` is refused.
unfoldable pub valid_options : ℕ → ℕ → Bool
valid_options concurrency poll_ms = not (ltb concurrency 1 || ltb poll_ms 1)

unfoldable pub initial : Coordinator
initial = record { stopping = true; scheduled_processing = false; loops = [] }

-- The test of the loop, and the call of `processNext` after it.
abbrev pub next_round : Coordinator → Phase
next_round c = if c.stopping then ended else in_message

abbrev pub loop_at : ℕ → List Phase → Option Phase
loop_at n [] = none
loop_at zero (p ∷ ps) = some p
loop_at (suc n) (p ∷ ps) = loop_at n ps

abbrev pub set_loop : ℕ → Phase → List Phase → List Phase
set_loop n q [] = []
set_loop zero q (p ∷ ps) = q ∷ ps
set_loop (suc n) q (p ∷ ps) = p ∷ set_loop n q ps

abbrev pub moves : ℕ → Phase → Coordinator → Coordinator
moves n q c = record c { loops = set_loop n q c.loops }

-- `processNext` of a loop has answered.
abbrev pub after_message : ℕ → Answer → Coordinator → Coordinator
after_message n processed c = moves n (next_round c) c
after_message n threw c = moves n waiting c
after_message n nothing c =
    if c.scheduled_processing
    then moves n waiting c
    else moves n in_scheduled (record c { scheduled_processing = true })

-- `processOne` of a loop has answered: the flag is reset however that went.
abbrev pub after_scheduled : ℕ → Answer → Coordinator → Coordinator
after_scheduled n processed c = moves n (next_round c) (record c { scheduled_processing = false })
after_scheduled n nothing c = moves n waiting (record c { scheduled_processing = false })
after_scheduled n threw c = moves n waiting (record c { scheduled_processing = false })

abbrev pub replicate : ℕ → Phase → List Phase
replicate zero p = []
replicate (suc n) p = p ∷ replicate n p

-- `start` and `stop`. A loop that still runs when `start` is called again goes on.
abbrev pub start : ℕ → Coordinator → Coordinator
start concurrency c =
    if c.stopping
    then record c { stopping = false; loops = c.loops ++ replicate concurrency in_message }
    else c

-- An event that does not fit the phase of its loop does not occur, and changes nothing.
unfoldable pub step_at : ℕ → Event → Coordinator → Option Phase → Coordinator
step_at concurrency starts c p = start concurrency c
step_at concurrency stops c p = record c { stopping = true }
step_at concurrency (message_answers n a) c (some in_message) = after_message n a c
step_at concurrency (scheduled_answers n a) c (some in_scheduled) = after_scheduled n a c
step_at concurrency (wakes n) c (some waiting) = moves n (next_round c) c
step_at concurrency e c p = c

abbrev pub loop_of : Event → Coordinator → Option Phase
loop_of (message_answers n a) c = loop_at n c.loops
loop_of (scheduled_answers n a) c = loop_at n c.loops
loop_of (wakes n) c = loop_at n c.loops
loop_of starts c = none
loop_of stops c = none

unfoldable pub step : ℕ → Event → Coordinator → Coordinator
unfolding step_at
step concurrency e c = step_at concurrency e c (loop_of e c)

unfoldable pub steps : ℕ → List Event → Coordinator → Coordinator
unfolding step
steps concurrency [] c = c
steps concurrency (e ∷ es) c = steps concurrency es (step concurrency e c)
