-- ===== src/Events/Once.antt =====
-- A message is stored once, however often the platform sends it: `enqueue`.
use minori.Common.{
  ◌≡◌, refl, sym, subst, inl, inr, List, [], ◌∷◌, ◌++◌, some, Bool, true, false, arith, Bool-cases,
}
use minori.Common.Table.{exists, find}
use minori.Domain.{Time, NormalizedMessage}
use minori.Database.{EventRow}
use minori.Events.{enqueue, duplicate, new_row}
use minori.Events.Calls.{Call, apply, run}
use minori.Events.Rows.{HasUniqueIds, has_id, row}
use minori.Events.Lives.{run-Keeps, apply-HasUniqueIds}

exists-find :
    (p : EventRow → Bool) (es : List EventRow) (e : EventRow)
    → find p es ≡ some e
    → exists p es ≡ true
exists-find p [] e h = absurd (cc)
exists-find p (x ∷ xs) e h = ground (arith, exists-find p xs e)

find-exists :
    (p : EventRow → Bool) (es : List EventRow)
    → exists p es ≡ true
    → (e : EventRow) × (find p es ≡ some e)
find-exists p [] h = absurd (cc)
find-exists p (x ∷ xs) h = elim (Bool-cases (p x)) [
  | inl e ↦ (x, rw e refl)
  | inr e ↦ let (y, q) = find-exists p xs (ground arith) in (y, rw e q)
]

pub find_of_missing :
    (p : EventRow → Bool) (es : List EventRow) (e : EventRow)
    → exists p es ≡ false
    → p e ≡ true
    → find p (es ++ e ∷ []) ≡ some e
find_of_missing p [] e h q = rw q refl
find_of_missing p (x ∷ xs) e h q = ground (arith, find_of_missing p xs e)

enqueued_row :
    (m : NormalizedMessage) (now : Time) (es : List EventRow)
    → (e : EventRow) × (row m.event_id (enqueue m now es).0 ≡ some e)
unfolding enqueue
enqueued_row m now es = elim (Bool-cases (exists (has_id m.event_id) es)) [
  | inl known ↦ rw known (find-exists (has_id m.event_id) es known)
  | inr fresh ↦
      rw fresh
        (new_row m now, find_of_missing (has_id m.event_id) es (new_row m now) fresh (ground arith))
]

-- If event ids are unique and a message was enqueued, then after any calls a message with the same
-- event id is a duplicate, and enqueueing it changes no row.
pub enqueued_once :
    (cs : List Call) (es : List EventRow) (m m' : NormalizedMessage) (now now' : Time)
    → HasUniqueIds es
    → m'.event_id ≡ m.event_id
    → let later = run cs (enqueue m now es).0 in enqueue m' now' later ≡ (later, duplicate)
unfolding enqueue apply
enqueued_once cs es m m' now now' u same =
    let (e, found) = enqueued_row m now es in
    let (e', h', k, _, v) =
      run-Keeps cs (enqueue m now es).0 m.event_id e (apply-HasUniqueIds (Call.enqueues m now) es u)
        found in
    let known =
      subst (λ i. exists (has_id i) (run cs (enqueue m now es).0) ≡ true) (sym same)
        (exists-find (has_id m.event_id) _ e' h') in
    rw known refl
