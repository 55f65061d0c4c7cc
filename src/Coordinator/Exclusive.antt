-- ===== src/Coordinator/Exclusive.antt =====
-- At most one loop processes a scheduled run.
use minori.Common.{
  ℕ, zero, suc, ◌+◌, ◌≡◌, refl, ap, ◌∙◌, inl, inr, List, [], ◌∷◌, Option, some, Bool, true, false,
  arith, Bool-cases,
}
use minori.Common.Table.{count}
use minori.Common.Table.Counts.{count-append}
use minori.Coordinator.{
  Phase, in_message, in_scheduled, waiting, Coordinator, Answer, processed, nothing, threw, Event,
  starts, stops, message_answers, scheduled_answers, wakes, next_round, loop_at, set_loop, moves,
  after_message, after_scheduled, replicate, start, step_at, loop_of, step, steps,
}

abbrev pub is_scheduled : Phase → Bool
is_scheduled in_scheduled = true
is_scheduled _ = false

abbrev pub one_if : Bool → ℕ
one_if true = 1
one_if false = 0

-- The flag says exactly whether a loop is in `processOne`, and no two loops are.
abbrev pub IsExclusive : Coordinator → Type 0
IsExclusive c = count is_scheduled c.loops ≡ one_if c.scheduled_processing

count-set_loop :
    (n : ℕ) (p q : Phase) (ps : List Phase)
    → loop_at n ps ≡ some p
    → count is_scheduled (set_loop n q ps) + one_if (is_scheduled p)
      ≡ count is_scheduled ps + one_if (is_scheduled q)
count-set_loop n p q [] h = absurd (cc)
count-set_loop zero p q (x ∷ xs) h =
    let same : x ≡ p = ground arith in let kind = ap is_scheduled same in ground arith
count-set_loop (suc n) p q (x ∷ xs) h = ground (arith, count-set_loop n p q xs h)

count-replicate : (n : ℕ) → count is_scheduled (replicate n in_message) ≡ 0
count-replicate zero = refl
count-replicate (suc n) = count-replicate n

-- A loop that moves between phases outside `processOne` keeps the flag true.
moves-IsExclusive :
    (n : ℕ) (p q : Phase) (c : Coordinator)
    → loop_at n c.loops ≡ some p
    → is_scheduled p ≡ false
    → is_scheduled q ≡ false
    → IsExclusive c
    → IsExclusive (moves n q c)
moves-IsExclusive n p q c h kp kq x = ground (arith, count-set_loop n p q c.loops h)

next_round-unscheduled : (c : Coordinator) → is_scheduled (next_round c) ≡ false
next_round-unscheduled c = elim (Bool-cases c.stopping) [ inl e ↦ rw e refl | inr e ↦ rw e refl ]

message-IsExclusive :
    (n : ℕ) (a : Answer) (c : Coordinator)
    → loop_at n c.loops ≡ some in_message
    → IsExclusive c
    → IsExclusive (after_message n a c)
message-IsExclusive n processed c h x =
    moves-IsExclusive n in_message (next_round c) c h refl (next_round-unscheduled c) x
message-IsExclusive n threw c h x = moves-IsExclusive n in_message waiting c h refl refl x
message-IsExclusive n nothing c h x = elim (Bool-cases c.scheduled_processing) [
  | inl e ↦ rw e (ground (arith, count-set_loop n in_message waiting c.loops h))
  | inr e ↦ rw e (ground (arith, count-set_loop n in_message in_scheduled c.loops h))
]

scheduled-IsExclusive :
    (n : ℕ) (a : Answer) (c : Coordinator)
    → loop_at n c.loops ≡ some in_scheduled
    → IsExclusive c
    → IsExclusive (after_scheduled n a c)
scheduled-IsExclusive n processed c h x =
    ground (arith, count-set_loop n in_scheduled (next_round c) c.loops h, next_round-unscheduled c)
scheduled-IsExclusive n nothing c h x =
    ground (arith, count-set_loop n in_scheduled waiting c.loops h)
scheduled-IsExclusive n threw c h x =
    ground (arith, count-set_loop n in_scheduled waiting c.loops h)

start-IsExclusive :
    (concurrency : ℕ) (c : Coordinator) → IsExclusive c → IsExclusive (start concurrency c)
start-IsExclusive concurrency c x = elim (Bool-cases c.stopping) [
  | inl e ↦ rw e (
      count-append is_scheduled c.loops (replicate concurrency in_message)
      ∙ ground (arith, count-replicate concurrency))
  | inr e ↦ rw e x
]

step_at-IsExclusive :
    (concurrency : ℕ) (e : Event) (c : Coordinator) (p : Option Phase)
    → loop_of e c ≡ p
    → IsExclusive c
    → IsExclusive (step_at concurrency e c p)
unfolding step_at
step_at-IsExclusive k starts c p h x = start-IsExclusive k c x
step_at-IsExclusive k stops c p h x = x
step_at-IsExclusive k (message_answers n a) c (some in_message) h x = message-IsExclusive n a c h x
step_at-IsExclusive k (scheduled_answers n a) c (some in_scheduled) h x =
    scheduled-IsExclusive n a c h x
step_at-IsExclusive k (wakes n) c (some waiting) h x =
    moves-IsExclusive n waiting (next_round c) c h refl (next_round-unscheduled c) x
step_at-IsExclusive k e c p h x = x

-- After any calls of `start` and `stop` and any answers, in any order, the flag is set if and only if
-- one loop is processing a scheduled run, and no two loops are.
pub steps-IsExclusive :
    (concurrency : ℕ) (es : List Event) (c : Coordinator)
    → IsExclusive c
    → IsExclusive (steps concurrency es c)
unfolding steps step
steps-IsExclusive concurrency [] c x = x
steps-IsExclusive concurrency (e ∷ es) c x =
    steps-IsExclusive concurrency es (step concurrency e c)
      (step_at-IsExclusive concurrency e c (loop_of e c) refl x)
