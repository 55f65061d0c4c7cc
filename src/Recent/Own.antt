-- ===== src/Recent/Own.antt =====
-- Of whom and from when the recent messages are.
use mathlib.Core.List.{reverse-cons}
use minori.Common.{
  ℕ, ◌+◌, ◌-◌, ◌≤◌, ◌≡◌, refl, sym, subst, inl, inr, String, List, [], ◌∷◌, reverse, Option, none,
  some, Bool, true, false, ◌==◌, ◌&&◌, &&_iff, ltb, leb→le, is_some, arith, Bool-cases,
  Option-cases, All, All-intro, All-append, sort_by,
}
use minori.Common.Table.{select}
use minori.Common.Sorting.{mem-select, mem-sort_by}
use minori.Domain.{Ident, Time}
use minori.Recent.{
  ConversationRow, MessageRow, StoredMessage, take_recent, newer, is_of, is_retained, from_trigger,
  with_content, chosen, recent_within_budget,
}

-- The message is of the conversation with the key, and not older than the date.
abbrev pub IsOwn : Ident → List ConversationRow → Time → StoredMessage → Type 0
IsOwn key conversations since m =
    (is_of key conversations m.conversation_id ≡ true) × (since ≤ m.created_at)

abbrev pub IsOwnRow : Ident → List ConversationRow → Time → MessageRow → Type 0
IsOwnRow key conversations since r =
    (is_of key conversations r.conversation_id ≡ true) × (since ≤ r.created_at)

All-reverse : {A : Type 0} (P : A → Type 0) (xs : List A) → All P xs → All P (reverse xs)
All-reverse P [] h = tt
All-reverse P (x ∷ xs) h =
    subst (All P) (sym (reverse-cons x xs))
      (All-append P (reverse xs) (x ∷ []) (All-reverse P xs h.1) (h.0, tt))

All-take_recent :
    {A : Type 0} (P : A → Type 0) (tokens : A → ℕ) (token_target : ℕ) (any : Bool) (used : ℕ)
    (xs : List A)
    → All P xs
    → All P (take_recent tokens token_target any used xs)
unfolding take_recent
All-take_recent P tokens token_target any used [] h = tt
All-take_recent P tokens token_target any used (x ∷ xs) h =
    elim (Bool-cases (any && ltb token_target (used + tokens x))) [
      | inl full ↦ rw full tt
      | inr fits ↦
          rw fits (h.0, All-take_recent P tokens token_target true (used + tokens x) xs h.1)
    ]

with_content-IsOwn :
    (key : Ident) (cs : List ConversationRow) (since : Time) (rs : List MessageRow)
    → All (IsOwnRow key cs since) rs
    → All (IsOwn key cs since) (with_content rs)
unfolding with_content
with_content-IsOwn key cs since [] h = tt
with_content-IsOwn key cs since (r ∷ rs) h = elim (Option-cases r.content) [
  | inl e ↦ rw e (with_content-IsOwn key cs since rs h.1)
  | inr (body, e) ↦ rw e (h.0, with_content-IsOwn key cs since rs h.1)
]

from_trigger-All :
    (P : MessageRow → Type 0) (id : Ident) (rs later : List MessageRow)
    → from_trigger id rs ≡ some later
    → All P rs
    → All P later
unfolding from_trigger
from_trigger-All P id [] later f h = absurd (cc)
from_trigger-All P id (r ∷ rs) later f h = elim (Bool-cases (r.message_id == id)) [
  | inl e ↦ let same : r ∷ rs ≡ later = ground arith in subst (All P) same h
  | inr e ↦ from_trigger-All P id rs later (ground arith) h.1
]

rows-IsOwn :
    (key : Ident) (cs : List ConversationRow) (since : Time) (rs : List MessageRow)
    → All (IsOwnRow key cs since) (sort_by newer (select (is_retained key cs since) rs))
rows-IsOwn key cs since rs = All-intro (IsOwnRow key cs since) _ (λ r m.
    let (_, kept) = mem-select (is_retained key cs since) rs r (mem-sort_by newer _ r m) in
    let (own, rest) = (&&_iff (is_of key cs r.conversation_id) _).0 kept in
    (own, leb→le since r.created_at ((&&_iff (is_some r.content) _).0 rest).1))

chosen-IsOwn :
    (estimate : String → ℕ) (token_target : ℕ) (key : Ident) (cs : List ConversationRow)
    (since : Time) (rs : List MessageRow) (later : Option (List MessageRow)) (id : Ident)
    (s : List StoredMessage)
    → from_trigger id rs ≡ later
    → All (IsOwnRow key cs since) rs
    → chosen estimate token_target later ≡ some s
    → All (IsOwn key cs since) s
unfolding take_recent with_content
chosen-IsOwn estimate token_target key cs since rs none id s f h c = absurd (ground (arith, c))
chosen-IsOwn estimate token_target key cs since rs (some later) id s f h c =
    let own = with_content-IsOwn key cs since later (from_trigger-All _ id rs later f h) in
    let taken = All-reverse (IsOwn key cs since) _ (
      All-take_recent (IsOwn key cs since) (λ (m : StoredMessage). estimate m.content) token_target
        false 0 (with_content later) own) in
    let same : _ ≡ s = ground (arith, c) in subst (All (IsOwn key cs since)) same taken

-- The recent messages of a conversation's key are of this conversation only, and none is older than
-- the time of retention, whatever the tables hold.
recent_messages-IsOwn :
    (estimate : String → ℕ) (retention_ms : ℕ) (now : Time) (key : Ident) (token_target : ℕ)
    (trigger : Ident) (cs : List ConversationRow) (rs : List MessageRow) (s : List StoredMessage)
    → recent_within_budget estimate retention_ms now key token_target trigger cs rs ≡ some s
    → All (IsOwn key cs (now - retention_ms)) s
unfolding recent_within_budget
recent_messages-IsOwn estimate retention_ms now key token_target trigger cs rs s h =
    chosen-IsOwn estimate token_target key cs (now - retention_ms)
      (sort_by newer (select (is_retained key cs (now - retention_ms)) rs)) _ trigger s refl
      (rows-IsOwn key cs (now - retention_ms) rs) h
