-- ===== src/Events/Serial.antt =====
-- One conversation is served one event at a time, in the order of arrival.
use mathlib.Core.List.{Memᴰ}
use minori.Common.{
  ◌≡◌, refl, sym, subst, ◌∙◌, inl, inr, List, [], ◌∷◌, ◌⊎◌, Bool, true, arith, if◌then◌else◌,
  Bool-cases,
}
use minori.Common.Table.{update}
use minori.Common.Table.Counts.{exists-update-antitone}
use minori.Database.{EventRow, is_processing, is_active}
use minori.Events.{precedes, is_head}

-- Every event in processing is the first active one of its conversation.
abbrev pub HeadsFirst : List EventRow → Type 0
HeadsFirst es = (e : EventRow) → Memᴰ e es → is_processing e.status ≡ true → is_head es e ≡ true

-- A row that keeps its place in the order and does not come back to life.
pub record IsOrderly (e e' : EventRow) : Type 0 where
  pub same_id : e'.event_id ≡ e.event_id
  pub same_key : e'.conversation_key ≡ e.conversation_key
  pub same_time : e'.received_at ≡ e.received_at
  pub no_revival : is_active e'.status ≡ true → is_active e.status ≡ true

pub precedes_back :
    (x x' y y' : EventRow)
    → IsOrderly x x'
    → IsOrderly y y'
    → precedes x' y' ≡ true
    → precedes x y ≡ true
precedes_back x x' y y' o q h = ground arith

pub IsOrderly-refl : (e : EventRow) → IsOrderly e e
IsOrderly-refl e = ground arith

pub mem-update :
    (p : EventRow → Bool) (f : EventRow → EventRow) (es : List EventRow) (e : EventRow)
    → Memᴰ e (update p f es)
    → (x : EventRow) × Memᴰ x es × (e ≡ (if p x then f x else x))
mem-update p f [] e m = elim m [ ]
mem-update p f (x ∷ xs) e (Memᴰ.head q) = (x, Memᴰ.head refl, q)
mem-update p f (x ∷ xs) e (Memᴰ.tail m) =
    let (y, k, q) = mem-update p f xs e m in (y, Memᴰ.tail k, q)

pub is_head-update :
    (p : EventRow → Bool) (f : EventRow → EventRow) (es : List EventRow) (x x' : EventRow)
    → ((y : EventRow) → Memᴰ y es → p y ≡ true → IsOrderly y (f y))
    → IsOrderly x x'
    → is_head es x ≡ true
    → is_head (update p f es) x' ≡ true
unfolding is_head
is_head-update p f es x x' o q h = ground (
  arith,
  exists-update-antitone (precedes x) (precedes x') p f es
      (λ y m hit. precedes_back x x' y (f y) q (o y m hit))
      (λ y. precedes_back x x' y y q (IsOrderly-refl y)),
)

-- An update keeps the order, if each row that it leaves in processing was in processing before or
-- comes first in its conversation.
pub HeadsFirst-update :
    (p : EventRow → Bool) (f : EventRow → EventRow) (es : List EventRow)
    → ((y : EventRow) → Memᴰ y es → p y ≡ true → IsOrderly y (f y))
    → ((x : EventRow)
        → Memᴰ x es
        → p x ≡ true
        → is_processing (f x).status ≡ true
        → (is_processing x.status ≡ true) ⊎ (is_head es x ≡ true))
    → HeadsFirst es
    → HeadsFirst (update p f es)
HeadsFirst-update p f es o entitled heads e m busy = elim (Bool-cases (p x)) [
  | inl hit ↦
      let q' : e ≡ f x = q ∙ rw hit in
      let busy' : is_processing (f x).status ≡ true = rw q' at busy in
      is_head-update p f es x e o (subst (IsOrderly x) (sym q') (o x k hit))
        (first_of_two x (heads x k) (entitled x k hit busy'))
  | inr miss ↦
      let q' : e ≡ x = q ∙ rw miss in
      is_head-update p f es x e o (subst (IsOrderly x) (sym q') (IsOrderly-refl x))
        (heads x k (rw q' at busy))
]
  where
    x : EventRow
    x = (mem-update p f es e m).0

    k : Memᴰ x es
    k = (mem-update p f es e m).1

    q : e ≡ (if p x then f x else x)
    q = (mem-update p f es e m).2

    first_of_two :
        (x : EventRow)
        → (is_processing x.status ≡ true → is_head es x ≡ true)
        → (is_processing x.status ≡ true) ⊎ (is_head es x ≡ true)
        → is_head es x ≡ true
    first_of_two x f (inl h) = f h
    first_of_two x f (inr h) = h

-- A change that puts no row in processing.
pub HeadsFirst-release :
    (p : EventRow → Bool) (f : EventRow → EventRow) (es : List EventRow)
    → ((y : EventRow) → Memᴰ y es → p y ≡ true → IsOrderly y (f y))
    → ((y : EventRow)
        → p y ≡ true
        → is_processing (f y).status ≡ true
        → is_processing y.status ≡ true)
    → HeadsFirst es
    → HeadsFirst (update p f es)
HeadsFirst-release p f es o keeps = HeadsFirst-update p f es o (λ x k h b. inl (keeps x h b))
