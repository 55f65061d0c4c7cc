-- ===== src/Audit/Listed.antt =====
-- A write that was begun and finished is in the list of write attempts.
use package.text.Mathlib.Text.{◌==◌ as str_eq}
use minori.Common.{
  ◌≡◌, refl, sym, ap, ◌∙◌, subst, inl, inr, String, List, [], ◌∷◌, ◌++◌, some, Bool, true, false,
  ◌&&◌, ◌==◌, ==_iff, is_some, opt_eqb, or_else, arith, Bool-cases, insert_by, sort_by, All-mem,
}
use mathlib.Core.List.{Memᴰ}
use minori.Common.Table.{find, update}
use minori.Common.Table.Counts.{find-some}
use minori.Common.Sorting.{select-mem}
use minori.Common.Text.{any_text}
use minori.Domain.{Ident, Time}
use minori.Database.{Database}
use minori.Audit.{AgentRunRow, ToolRunRow, Audit, WriteOutcome, succeeded, failed, unknown}
use minori.Audit.Tools.{add_tool_run}
use minori.Audit.Write.{
  WriteInput, WriteResult, begun_row, finished_row, unknown_category, success_of, finish_write,
  begin_write, begin_write_of, mark_write,
}
use minori.Audit.Receipts.{
  WriteAttemptReceipt, write_names, filled, receipt, receipt_of, receipts, belongs, outcome_of,
  list_write_attempts_where, list_write_attempts,
}

module _ {A : Type 0} where
  mem-append_right : (xs ys : List A) (x : A) → Memᴰ x ys → Memᴰ x (xs ++ ys)
  mem-append_right [] ys x m = m
  mem-append_right (y ∷ xs) ys x m = Memᴰ.tail (mem-append_right xs ys x m)

  mem-update :
      (p : A → Bool) (f : A → A) (xs : List A) (x : A)
      → Memᴰ x xs
      → p x ≡ true
      → Memᴰ (f x) (update p f xs)
  mem-update p f [] x m h = elim m [ ]
  mem-update p f (y ∷ ys) x (Memᴰ.head e) h = Memᴰ.head (rw (ap p (sym e) ∙ h) (ap f e))
  mem-update p f (y ∷ ys) x (Memᴰ.tail m) h = Memᴰ.tail (mem-update p f ys x m h)

  mem_inserted : (before : A → A → Bool) (y : A) (xs : List A) → Memᴰ y (insert_by before y xs)
  mem_inserted before y [] = Memᴰ.head refl
  mem_inserted before y (x ∷ xs) = elim (Bool-cases (before x y)) [
    | inl e ↦ rw e (Memᴰ.tail (mem_inserted before y xs))
    | inr e ↦ rw e (Memᴰ.head refl)
  ]

  mem_kept :
      (before : A → A → Bool) (y : A) (xs : List A) (z : A)
      → Memᴰ z xs
      → Memᴰ z (insert_by before y xs)
  mem_kept before y [] z m = elim m [ ]
  mem_kept before y (x ∷ xs) z m = elim (Bool-cases (before x y)) [
    | inl e ↦
        rw e (elim m [
          | Memᴰ.head q ↦ Memᴰ.head q
          | Memᴰ.tail k ↦ Memᴰ.tail (mem_kept before y xs z k)
        ])
    | inr e ↦ rw e (Memᴰ.tail m)
  ]

  mem_sorted :
      (before : A → A → Bool) (xs : List A) (z : A) → Memᴰ z xs → Memᴰ z (sort_by before xs)
  mem_sorted before [] z m = m
  mem_sorted before (x ∷ xs) z (Memᴰ.head q) =
      subst (λ w. Memᴰ w (insert_by before x (sort_by before xs))) (sym q)
        (mem_inserted before x (sort_by before xs))
  mem_sorted before (x ∷ xs) z (Memᴰ.tail m) =
      mem_kept before x (sort_by before xs) z (mem_sorted before xs z m)

-- A text that is not empty.
abbrev pub IsText : String → Type 0
IsText s = str_eq s "" ≡ false

abbrev IsWriteName : String → Type 0
IsWriteName name = any_text name write_names ≡ true

-- The tools that write: documents, the team's context and schedules.
abbrev pub writing_tools : List String
writing_tools =
    "createDocument" ∷ "appendDocument" ∷ "patchDocument" ∷ "updateTeamContext" ∷ "createSchedule"
    ∷ "updateSchedule" ∷ "pauseSchedule" ∷ "resumeSchedule" ∷ "deleteSchedule" ∷ []

writing_tools-IsWriteName : (name : String) → Memᴰ name writing_tools → IsWriteName name
writing_tools-IsWriteName name m =
    All-mem IsWriteName writing_tools name
      (refl, (refl, (refl, (refl, (refl, (refl, (refl, (refl, (refl, tt))))))))) m

mem-receipts :
    (ts : List ToolRunRow) (t : ToolRunRow) (summary : String)
    → Memᴰ t ts
    → t.sanitized_summary ≡ some summary
    → IsText summary
    → IsWriteName t.tool_name
    → Memᴰ (receipt t summary) (receipts ts)
unfolding receipts
mem-receipts [] t summary m s x n = elim m [ ]
mem-receipts (u ∷ us) t summary (Memᴰ.head e) s x n =
    let shown : filled u.sanitized_summary ≡ some summary =
      ap (λ (w : ToolRunRow). filled w.sanitized_summary) (sym e) ∙ rw s (rw x refl) in
    rw shown (
      rw (ap (λ (w : ToolRunRow). any_text w.tool_name write_names) (sym e) ∙ n)
        (Memᴰ.head (ap (λ w. receipt w summary) e)))
mem-receipts (u ∷ us) t summary (Memᴰ.tail m) s x n =
    mem-append_right (receipt_of u (filled u.sanitized_summary)) (receipts us) (receipt t summary)
      (mem-receipts us t summary m s x n)

-- The entry that a finished write leads to.
abbrev pub entry : WriteInput → WriteResult → WriteAttemptReceipt
entry input result = record {
  tool_name = input.tool_name;
  outcome = result.outcome;
  sanitized_summary = input.sanitized_summary;
  target_identifiers = input.target_identifiers;
  result_identifiers = result.result_identifiers;
  error_category = filled (or_else result.error_category (unknown_category result.outcome));
}

decoded : (o : WriteOutcome) → outcome_of (success_of o) ≡ o
decoded succeeded = refl
decoded failed = refl
decoded unknown = refl

finished-entry :
    (id agent_run_id : Ident) (input : WriteInput) (result : WriteResult) (then_ now : Time)
    → receipt
        (finished_row result now (begun_row id agent_run_id input then_))
        input.sanitized_summary
      ≡ entry input result
finished-entry id agent_run_id input result then_ now = rw (decoded result.outcome) refl

-- A finished write of an agent run that `p` selects is in the list of `p`.
finished-listed :
    (p : AgentRunRow → Bool) (a : Audit) (r : AgentRunRow) (t : ToolRunRow) (id : Ident)
    (summary : String) (result : WriteResult) (now : Time)
    → Memᴰ t a.tool_runs
    → t.id ≡ id
    → belongs p a.agent_runs t ≡ true
    → t.sanitized_summary ≡ some summary
    → IsText summary
    → IsWriteName t.tool_name
    → Memᴰ
        (receipt (finished_row result now t) summary)
        (list_write_attempts_where p (finish_write id result now a).0)
unfolding list_write_attempts_where finish_write
finished-listed p a r t id summary result now m i b s x n =
    mem-receipts _ (finished_row result now t) summary
      (mem_sorted _ _ _ (
        select-mem (belongs p a.agent_runs) _ (finished_row result now t)
          (mem-update (λ (u : ToolRunRow). u.id == id) (finished_row result now) a.tool_runs t m
            ((==_iff t.id id).1 i))
          b))
      s x n

found_both :
    (k q : AgentRunRow → Bool) (rs : List AgentRunRow) (r : AgentRunRow)
    → find k rs ≡ some r
    → q r ≡ true
    → is_some (find (λ x. k x && q x) rs) ≡ true
found_both k q [] r h t = absurd (cc)
found_both k q (x ∷ xs) r h t = elim (Bool-cases (k x)) [
  | inl e ↦ let same : x ≡ r = ground arith in rw (e, ap q same ∙ t) refl
  | inr e ↦ rw e (found_both k q xs r (ground arith) t)
]

begun-tool_runs :
    (id : Ident) (input : WriteInput) (now : Time) (db : Database) (a : Audit) (r : AgentRunRow)
    → (begin_write_of id input now db a (some r)).1 ≡ some id
    → (begin_write_of id input now db a (some r)).0.1 ≡ add_tool_run (begun_row id r.id input now) a
unfolding begin_write_of
begun-tool_runs id input now db a r h = elim (Bool-cases ((mark_write r now db).1 == 1)) [
  | inl e ↦ rw e refl
  | inr e ↦ absurd (ground arith)
]

-- A write of an agent run for a message that was begun and then finished is in the list of write
-- attempts of the message, with the tool, the target, the summary, the result and the outcome that
-- were given, if its summary is not empty and its tool is one of the nine that write.
pub finished_write_is_listed :
    (id agent_run_id i : Ident) (input : WriteInput) (result : WriteResult) (then_ now : Time)
    (db : Database) (a : Audit) (r : AgentRunRow)
    → find (λ x. x.id == agent_run_id) a.agent_runs ≡ some r
    → r.event_id ≡ some i
    → (begin_write id agent_run_id input then_ db a).1 ≡ some id
    → IsText input.sanitized_summary
    → Memᴰ input.tool_name writing_tools
    → let begun = (begin_write id agent_run_id input then_ db a).0.1 in
      Memᴰ (entry input result) (list_write_attempts i (finish_write id result now begun).0)
unfolding begin_write list_write_attempts
finished_write_is_listed id agent_run_id i input result then_ now db a r f e h x tool =
    let n = writing_tools-IsWriteName input.tool_name tool in
    let t = begun_row id r.id input then_ in
    let same = begun-tool_runs id input then_ db a r (rw f at h) in
    let own : (r.id == agent_run_id) ≡ true =
      (find-some (λ x. x.id == agent_run_id) a.agent_runs r f).0 in
    rw f (
      rw same (
        subst
          (λ w. Memᴰ w (
            list_write_attempts_where (λ x. opt_eqb x.event_id i)
              (finish_write id result now (add_tool_run t a)).0))
          (finished-entry id r.id input result then_ now)
          (finished-listed (λ x. opt_eqb x.event_id i) (add_tool_run t a) r t id
            input.sanitized_summary result now
            (mem-append_right a.tool_runs (t ∷ []) t (Memᴰ.head refl)) refl
            (found_both (λ x. x.id == r.id) (λ x. opt_eqb x.event_id i) a.agent_runs r
              (subst (λ k. find (λ x. x.id == k) a.agent_runs ≡ some r)
                (sym ((==_iff r.id agent_run_id).0 own)) f)
              (rw e ((==_iff i i).1 refl)))
            refl x n)))
