-- ===== src/Audit/Boundary.antt =====
-- A write that was begun marks its message, and the message's later processings do not ask the agent.
use minori.Common.{
  ℕ, ◌≤◌, ◌+◌, ◌≡◌, refl, ◌∙◌, subst, inl, inr, String, List, [], ◌∷◌, some, Bool, true, false,
  ◌==◌, ==_iff, ◌&&◌, is_some, arith, Bool-cases, Option-cases, All, All-map, map,
}
use minori.Common.Table.{select, count, exists, find}
use minori.Common.Table.Counts.{find-none}
use minori.Domain.{Ident, Time}
use minori.Database.{EventRow, RunRow, Database}
use minori.Events.{StoredEvent, claim_ready, claimed_row, stored_event}
use minori.Events.Progress.{writing_row}
use minori.Events.Calls.{Call, run}
use minori.Events.Rows.{HasUniqueIds, has_id, row, row-update}
use minori.Events.Lives.{run-Keeps, update-HasUniqueIds}
use minori.Worker.{Answers}
use minori.Worker.Process.{process}
use minori.Worker.Endings.{is_ask}
use minori.Worker.Again.{agent_is_not_asked_again}
use minori.Audit.{AgentRunRow, Audit}
use minori.Audit.Write.{
  WriteInput, marks_message, marks_scheduled, mark_write, begin_write, begin_write_of,
}

-- What holds of the row of an id holds of every row with that id, ids being unique.
All-of_none :
    (i : Ident) (P : EventRow → Type 0) (es : List EventRow)
    → count (has_id i) es ≡ 0
    → All (λ x. x.event_id ≡ i → P x) es
All-of_none i P [] h = tt
All-of_none i P (x ∷ xs) h = elim (Bool-cases (has_id i x)) [
  | inl e ↦ absurd (ground arith)
  | inr e ↦ (λ q. absurd (ground arith), All-of_none i P xs (ground arith))
]

All-of_row :
    (i : Ident) (P : EventRow → Type 0) (es : List EventRow) (e : EventRow)
    → count (has_id i) es ≤ 1
    → row i es ≡ some e
    → P e
    → All (λ x. x.event_id ≡ i → P x) es
All-of_row i P [] e u h p = absurd (cc)
All-of_row i P (x ∷ xs) e u h p = elim (Bool-cases (has_id i x)) [
  | inl k ↦
      let same : e ≡ x = ground arith in (λ q. subst P same p, All-of_none i P xs (ground arith))
  | inr k ↦ (λ q. absurd (ground arith), All-of_row i P xs e (ground arith) (ground arith) p)
]

All-select :
    (P : EventRow → Type 0) (p : EventRow → Bool) (es : List EventRow)
    → All P es
    → All P (select p es)
All-select P p [] h = tt
All-select P p (x ∷ xs) h = elim (Bool-cases (p x)) [
  | inl e ↦ rw e (h.0, All-select P p xs h.1)
  | inr e ↦ rw e (All-select P p xs h.1)
]

All-stored :
    (P : StoredEvent → Type 0) (f : EventRow → StoredEvent) (es : List EventRow)
    → All (λ e. P (f e)) es
    → All P (map f es)
All-stored P f [] h = tt
All-stored P f (x ∷ xs) h = (h.0, All-stored P f xs h.1)

-- What a claim gives is made from rows of the table.
claimed-All :
    (P : StoredEvent → Type 0) (locked : EventRow → Bool) (limit : ℕ) (lease now : Time)
    (runs : List RunRow) (es : List EventRow)
    → All (λ e. P (stored_event (claimed_row lease now e))) es
    → All P (claim_ready locked limit lease now runs es).1
unfolding claim_ready
claimed-All P locked limit lease now runs es h = elim (Bool-cases (limit == 0)) [
  | inl e ↦ rw e tt
  | inr e ↦
      rw e (All-stored P _ _ (All-select (λ e. P (stored_event (claimed_row lease now e))) _ es h))
]

no_scheduled_mark :
    (r : AgentRunRow) (i : Ident) (rs : List RunRow)
    → r.event_id ≡ some i
    → count (marks_scheduled r) rs ≡ 0
no_scheduled_mark r i [] e = refl
no_scheduled_mark r i (x ∷ xs) e = rw e (no_scheduled_mark r i xs e)

marks-le :
    (r : AgentRunRow) (i : Ident) (es : List EventRow)
    → r.event_id ≡ some i
    → count (marks_message r) es ≤ count (has_id i) es
marks-le r i [] e = omega arith
marks-le r i (x ∷ xs) e = ground (arith, marks-le r i xs e)

mark_of_count :
    (r : AgentRunRow) (i : Ident) (es : List EventRow) (e : EventRow)
    → r.event_id ≡ some i
    → count (has_id i) es ≤ 1
    → row i es ≡ some e
    → count (marks_message r) es ≡ 1
    → marks_message r e ≡ true
mark_of_count r i [] e q u h k = absurd (cc)
mark_of_count r i (x ∷ xs) e q u h k = elim (Bool-cases (has_id i x)) [
  | inl y ↦
      let same : x ≡ e = ground arith in
      subst (λ w. marks_message r w ≡ true) same (ground (arith, marks-le r i xs q))
  | inr n ↦ mark_of_count r i xs e q (ground arith) (ground arith) (ground arith)
]

row_of_mark :
    (r : AgentRunRow) (i : Ident) (es : List EventRow)
    → r.event_id ≡ some i
    → count (marks_message r) es ≡ 1
    → (e : EventRow) × (row i es ≡ some e)
row_of_mark r i es q k = elim (Option-cases (row i es)) [
  | inl gone ↦ absurd (omega (arith, marks-le r i es q, find-none (has_id i) es gone))
  | inr found ↦ found
]

-- A write begun for a message: its row has the mark, and the ids stay unique.
marked :
    (id i : Ident) (input : WriteInput) (now : Time) (db : Database) (a : Audit) (r : AgentRunRow)
    → HasUniqueIds db.events
    → r.event_id ≡ some i
    → (begin_write_of id input now db a (some r)).1 ≡ some id
    → let es = (begin_write_of id input now db a (some r)).0.0.events in
      (e : EventRow) × (row i es ≡ some e) × (is_some e.write_started_at ≡ true) × HasUniqueIds es
unfolding begin_write_of mark_write
marked id i input now db a r u q h =
    elim (Bool-cases (count (marks_scheduled r) db.runs + count (marks_message r) db.events == 1)) [
      | inl one ↦
          let k : count (marks_message r) db.events ≡ 1 =
            ground (arith, no_scheduled_mark r i db.runs q) in
          let (e, f) = row_of_mark r i db.events q k in
          let m = mark_of_count r i db.events e q (u i) f k in
          rw one (
            writing_row now e,
            row-update i (marks_message r) (writing_row now) db.events e (λ x. refl) f ∙ rw m refl,
            refl,
            update-HasUniqueIds (marks_message r) (writing_row now) db.events (λ x. refl) u,
          )
      | inr other ↦ absurd (ground arith)
    ]

-- The event `i` whose processing would ask the agent.
abbrev pub asks_again : (Ident → String) → ℕ → Answers → Ident → StoredEvent → Bool
asks_again key window answers i s =
    s.event_id == i && exists is_ask (process key window s answers).0

claimed-quiet :
    (key : Ident → String) (window : ℕ) (answers : Answers) (i : Ident) (lease now : Time)
    (x : EventRow)
    → (x.event_id ≡ i → is_some x.write_started_at ≡ true)
    → asks_again key window answers i (stored_event (claimed_row lease now x)) ≡ false
unfolding stored_event
claimed-quiet key window answers i lease now x g = elim (Bool-cases (x.event_id == i)) [
  | inl e ↦ rw e (
      agent_is_not_asked_again key window (stored_event (claimed_row lease now x)) answers
        (rw (g ((==_iff x.event_id i).0 e)) refl))
  | inr e ↦ rw e refl
]

exists_of_All :
    (p : StoredEvent → Bool) (xs : List StoredEvent)
    → All (λ s. p s ≡ false) xs
    → exists p xs ≡ false
exists_of_All p [] h = refl
exists_of_All p (x ∷ xs) h = ground (arith, exists_of_All p xs h.1)

-- If event ids are unique and a tool of an agent run for a message has begun a write, then after any
-- calls of the event store no claim gives the message to a processing that asks the agent, whatever
-- the store, the agent and the platform answer.
pub begun_write_is_not_repeated :
    (id agent_run_id i : Ident) (input : WriteInput) (then_ : Time) (db : Database) (a : Audit)
    (r : AgentRunRow) (cs : List Call) (locked : EventRow → Bool) (limit : ℕ) (lease now : Time)
    (runs : List RunRow) (key : Ident → String) (window : ℕ) (answers : Answers)
    → HasUniqueIds db.events
    → find (λ x. x.id == agent_run_id) a.agent_runs ≡ some r
    → r.event_id ≡ some i
    → (begin_write id agent_run_id input then_ db a).1 ≡ some id
    → let later = run cs (begin_write id agent_run_id input then_ db a).0.0.events in
      exists
        (λ s. s.event_id == i && exists is_ask (process key window s answers).0)
        (claim_ready locked limit lease now runs later).1
      ≡ false
unfolding begin_write
begun_write_is_not_repeated id agent_run_id i input then_ db a r cs locked limit lease now runs key
      window answers u f q h =
    let (e, found, w, v) = marked id i input then_ db a r u q (rw f at h) in
    let (e', found', k, _, v') = run-Keeps cs _ i e v found in
    rw f (
      exists_of_All (asks_again key window answers i) _ (
        claimed-All (λ s. asks_again key window answers i s ≡ false) locked limit lease now runs _
          (All-map _ _ _ (λ x g. claimed-quiet key window answers i lease now x g)
            (All-of_row i (λ x. is_some x.write_started_at ≡ true) _ e' (v' i) found'
              (k.write_stays w)))))
