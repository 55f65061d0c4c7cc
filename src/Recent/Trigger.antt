-- ===== src/Recent/Trigger.antt =====
-- The trigger of an agent run is the last message that the agent gets.
use mathlib.Core.List.{Memᴰ, reverse-cons}
use minori.Common.{
  ℕ, ◌+◌, ◌-◌, ◌≤◌, ◌≡◌, refl, sym, ap, ◌∙◌, inl, inr, String, List, [], ◌∷◌, ◌++◌, reverse, some,
  Bool, true, false, leb, ◌==◌, ==_iff, arith, Bool-cases, All, sort_by, le→leb,
}
use minori.Common.Table.{select, exists}
use minori.Common.Table.Counts.{count-append, count-zero_of_exists, exists-sort_by, find-some}
use minori.Common.Table.Keys.{find-append, find-eq_none}
use minori.Common.Sorting.{select-mem, mem-select, mem-sort_by, find-mem}
use minori.Domain.{Ident, Time}
use minori.Recent.{
  ConversationRow, MessageRow, StoredMessage, take_recent, newer, is_of, is_retained, from_trigger,
  with_content, chosen, recent_within_budget,
}
use minori.Recent.Store.{
  Conversations, has_id, has_message, message_row, active_at, append, StoreCall, run,
}
use minori.Recent.Stored.{spares, IsStored, is_of-active, run-IsStored}

append-IsStored :
    (m : StoredMessage) (key : Ident) (d : Conversations)
    → exists (has_message m.message_id) d.messages ≡ false
    → is_of key d.conversations m.conversation_id ≡ true
    → IsStored m d.next_sequence key (append m d).0
unfolding append
append-IsStored m key d new belongs =
    let there : exists (has_id m.conversation_id) d.conversations ≡ true =
      is_of-exists key m.conversation_id d.conversations belongs in
    let mine : (m.message_id == m.message_id) ≡ true = (==_iff m.message_id m.message_id).1 refl in
    let none_yet = count-zero_of_exists (has_message m.message_id) d.messages new in
    rw new (
      rw there (record {
        found =
            find-append (has_message m.message_id) d.messages _
            ∙ rw (find-eq_none (has_message m.message_id) d.messages none_yet) (rw mine refl);
        once =
            count-append (has_message m.message_id) d.messages _
            ∙ rw mine (omega (arith, none_yet));
        belongs =
            is_of-active key m.conversation_id (has_id m.conversation_id)
              (λ c. (active_at m.created_at c).last_activity_at) d.conversations
            ∙ belongs;
      }))
  where
    is_of-exists :
        (key id : Ident) (cs : List ConversationRow)
        → is_of key cs id ≡ true
        → exists (has_id id) cs ≡ true
    is_of-exists key id [] h = h
    is_of-exists key id (c ∷ cs) h = ground (arith, is_of-exists key id cs)

mem-exists :
    (p : MessageRow → Bool) (rs : List MessageRow) (r : MessageRow)
    → Memᴰ r rs
    → p r ≡ true
    → exists p rs ≡ true
mem-exists p [] r m h = elim m [ ]
mem-exists p (x ∷ xs) r (Memᴰ.head e) h = ground (arith, ap p e)
mem-exists p (x ∷ xs) r (Memᴰ.tail m) h = ground (arith, mem-exists p xs r m h)

-- The rows from the trigger on start with a row that has its id.
from_trigger-found :
    (id : Ident) (rs : List MessageRow)
    → exists (has_message id) rs ≡ true
    → (r : MessageRow) × (older : List MessageRow) × (from_trigger id rs ≡ some (r ∷ older))
      × (has_message id r ≡ true)
      × Memᴰ r rs
unfolding from_trigger
from_trigger-found id [] h = absurd (cc)
from_trigger-found id (x ∷ xs) h = elim (Bool-cases (has_message id x)) [
  | inl e ↦ (x, xs, rw e refl, e, Memᴰ.head refl)
  | inr e ↦
      let (r, older, found, good, there) = from_trigger-found id xs (ground arith) in
      (r, older, rw e found, good, Memᴰ.tail there)
]

chosen-last :
    (estimate : String → ℕ) (token_target : ℕ) (m : StoredMessage) (n : ℕ) (older : List MessageRow)
    → (before : List StoredMessage) × (chosen estimate token_target (some (message_row m n ∷ older))
        ≡ some (before ++ m ∷ []))
unfolding take_recent with_content
chosen-last estimate token_target m n older =
    let later =
      take_recent (λ (s : StoredMessage). estimate s.content) token_target true
        (0 + estimate m.content) (with_content older) in
    (reverse later, ap some (reverse-cons m later))

stored_is_last :
    (estimate : String → ℕ) (retention_ms : ℕ) (now : Time) (token_target n : ℕ) (key : Ident)
    (m : StoredMessage) (d : Conversations)
    → leb (now - retention_ms) m.created_at ≡ true
    → IsStored m n key d
    → (before : List StoredMessage) × (recent_within_budget estimate retention_ms now key
          token_target m.message_id d.conversations d.messages
        ≡ some (before ++ m ∷ []))
unfolding recent_within_budget
stored_is_last estimate retention_ms now token_target n key m d recent h =
    let r = message_row m n in
    let id = m.message_id in
    let kept = is_retained key d.conversations (now - retention_ms) in
    let retained : kept r ≡ true = rw h.belongs recent in
    let (mine, there) = find-some (has_message id) d.messages r h.found in
    let selected = select-mem kept d.messages r there retained in
    let (y, older, from, good, in_sorted) =
      from_trigger-found id (sort_by newer (select kept d.messages)) (
        exists-sort_by (has_message id) newer (select kept d.messages)
        ∙ mem-exists (has_message id) (select kept d.messages) r selected mine) in
    let in_rows = (mem-select kept d.messages y (mem-sort_by newer _ y in_sorted)).0 in
    let same : some y ≡ some r =
      sym (find-mem (has_message id) d.messages y (omega (arith, h.once)) in_rows good) ∙ h.found in
    let (before, last) = chosen-last estimate token_target m n older in
    let y_is_r : y ≡ r = ground arith in
    (
      before,
      ap (chosen estimate token_target) (from ∙ ap (λ (x : MessageRow). some (x ∷ older)) y_is_r)
          ∙ last,
    )

-- Let a message that is not stored yet be appended to a conversation with a key. Whatever is appended,
-- created and purged afterwards, as long as no purge reaches its date: within the time of retention,
-- the recent messages of the key with the message as the trigger are no error, and the message is the
-- last of them, unchanged, whatever the budget of tokens.
pub trigger_is_last :
    (estimate : String → ℕ) (retention_ms : ℕ) (now : Time) (token_target : ℕ) (key : Ident)
    (m : StoredMessage) (cs : List StoreCall) (d : Conversations)
    → exists (has_message m.message_id) d.messages ≡ false
    → is_of key d.conversations m.conversation_id ≡ true
    → All (λ c. spares m.created_at c ≡ true) cs
    → now - retention_ms ≤ m.created_at
    → let later = run cs (append m d).0 in
      (before : List StoredMessage) × (recent_within_budget estimate retention_ms now key
          token_target m.message_id later.conversations later.messages
        ≡ some (before ++ m ∷ []))
trigger_is_last estimate retention_ms now token_target key m cs d new belongs spared recent =
    stored_is_last estimate retention_ms now token_target d.next_sequence key m
      (run cs (append m d).0) (le→leb (now - retention_ms) m.created_at recent)
      (run-IsStored m d.next_sequence key cs (append m d).0 spared
        (append-IsStored m key d new belongs))
