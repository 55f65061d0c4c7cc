-- ===== src/Recent/Stored.antt =====
-- A stored message stays in its place, as long as it is not purged.
use minori.Common.{
  ℕ, ◌≡◌, refl, ap, ◌∙◌, inl, inr, List, [], ◌∷◌, none, some, Bool, true, false, ◌&&◌, ltb, leb,
  ◌==◌, ==_iff, is_some, arith, Bool-cases, All,
}
use minori.Common.Table.{count, exists, find, update}
use minori.Common.Table.Counts.{count-append, count-update-eq, exists-append}
use minori.Common.Table.Keys.{find-update, find-append}
use minori.Domain.{Ident, Time}
use minori.Recent.{ConversationRow, MessageRow, StoredMessage, is_of, purge_expired}
use minori.Recent.Store.{
  ConversationIdentity, Conversations, has_key, has_id, has_message, new_conversation, message_row,
  active_at, get_or_create_conversation, append, StoreCall, creates, appends, purges, apply, run,
}

abbrev pub spares : Time → StoreCall → Bool
spares created_at (purges before now) = leb before created_at
spares created_at _ = true

-- The message has its row, which is the only one with its id, and its conversation has the key.
pub record IsStored (m : StoredMessage) (n : ℕ) (key : Ident) (d : Conversations) : Type 0 where
  pub found : find (has_message m.message_id) d.messages ≡ some (message_row m n)
  pub once : count (has_message m.message_id) d.messages ≡ 1
  pub belongs : is_of key d.conversations m.conversation_id ≡ true

exists-find {ℓ} :
    {A : Type ℓ} (p : A → Bool) (xs : List A) (x : A) → find p xs ≡ some x → exists p xs ≡ true
exists-find p [] x h = absurd (cc)
exists-find p (y ∷ ys) x h = ground (arith, exists-find p ys x)

-- A change of the date of the last activity changes no key and no id.
pub is_of-active :
    (key id : Ident) (p : ConversationRow → Bool) (f : ConversationRow → Time)
    (cs : List ConversationRow)
    → is_of key (update p (λ c. record c { last_activity_at = f c }) cs) id ≡ is_of key cs id
is_of-active key id p f [] = refl
is_of-active key id p f (c ∷ cs) = ground (arith, is_of-active key id p f cs)

creates-IsStored :
    (m : StoredMessage) (n : ℕ) (key fresh : Ident) (i : ConversationIdentity) (now : Time)
    (d : Conversations)
    → IsStored m n key d
    → IsStored m n key (get_or_create_conversation fresh i now d).0
unfolding get_or_create_conversation
creates-IsStored m n key fresh i now d h = record {
  found = h.found;
  once = h.once;
  belongs = elim (Bool-cases (exists (has_key i.conversation_key) d.conversations)) [
    | inl known ↦ rw known (
        is_of-active key m.conversation_id (has_key i.conversation_key) (λ c. now) d.conversations
        ∙ h.belongs)
    | inr new ↦ rw new (
        ground (
          arith,
          exists-append
              (λ (c : ConversationRow). c.id == m.conversation_id && c.conversation_key == key)
              d.conversations (new_conversation fresh i now ∷ []),
          h.belongs,
        ))
  ];
}

appends-IsStored :
    (m : StoredMessage) (n : ℕ) (key : Ident) (m' : StoredMessage) (d : Conversations)
    → IsStored m n key d
    → IsStored m n key (append m' d).0
unfolding append
appends-IsStored m n key m' d h =
    elim (Bool-cases (exists (has_message m'.message_id) d.messages)) [
      | inl known ↦ rw known (record { found = h.found; once = h.once; belongs = h.belongs })
      | inr new ↦ rw new (elim (Bool-cases (exists (has_id m'.conversation_id) d.conversations)) [
        | inr missing ↦ rw missing (record { found = h.found; once = h.once; belongs = h.belongs })
        | inl there ↦
            let other : (m'.message_id == m.message_id) ≡ false =
              elim (Bool-cases (m'.message_id == m.message_id)) [
                | inr e ↦ e
                | inl e ↦ absurd (
                    let same = (==_iff m'.message_id m.message_id).0 e in
                    cc (
                      new,
                      ap (λ (i : Ident). exists (has_message i) d.messages) same,
                      exists-find (has_message m.message_id) d.messages (message_row m n) h.found,
                    ))
              ] in
            rw there (record {
              found = find-append (has_message m.message_id) d.messages _ ∙ rw h.found refl;
              once =
                  count-append (has_message m.message_id) d.messages _
                  ∙ rw other (omega (arith, h.once));
              belongs =
                  is_of-active key m.conversation_id (has_id m'.conversation_id)
                    (λ c. (active_at m'.created_at c).last_activity_at) d.conversations
                  ∙ h.belongs;
            })
      ])
    ]

purges-IsStored :
    (m : StoredMessage) (n : ℕ) (key : Ident) (before now : Time) (d : Conversations)
    → leb before m.created_at ≡ true
    → IsStored m n key d
    → IsStored m n key (apply (purges before now) d)
unfolding apply purge_expired
purges-IsStored m n key before now d spared h =
    let hit = λ (r : MessageRow). ltb r.created_at before && is_some r.content in
    let purged = λ (r : MessageRow). record r { content = none; purged_at = some now } in
    let kept : hit (message_row m n) ≡ false = ground arith in
    record {
      found =
          find-update (has_message m.message_id) hit purged d.messages (λ r. refl)
          ∙ rw h.found (rw kept refl);
      once = count-update-eq (has_message m.message_id) hit purged d.messages (λ r. refl) ∙ h.once;
      belongs = h.belongs;
    }

apply-IsStored :
    (m : StoredMessage) (n : ℕ) (key : Ident) (c : StoreCall) (d : Conversations)
    → spares m.created_at c ≡ true
    → IsStored m n key d
    → IsStored m n key (apply c d)
unfolding apply
apply-IsStored m n key (creates fresh i now) d s h = creates-IsStored m n key fresh i now d h
apply-IsStored m n key (appends m') d s h = appends-IsStored m n key m' d h
apply-IsStored m n key (purges before now) d s h = purges-IsStored m n key before now d s h

pub run-IsStored :
    (m : StoredMessage) (n : ℕ) (key : Ident) (cs : List StoreCall) (d : Conversations)
    → All (λ c. spares m.created_at c ≡ true) cs
    → IsStored m n key d
    → IsStored m n key (run cs d)
unfolding run
run-IsStored m n key [] d s h = h
run-IsStored m n key (c ∷ cs) d s h =
    run-IsStored m n key cs (apply c d) s.1 (apply-IsStored m n key c d s.0 h)
