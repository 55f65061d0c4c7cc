-- ===== src/Common/Sorting.antt =====
-- The first row of an ordered selection.
pub mod Kept
use Prim.Native.Nat.{◌≤◌}
use mathlib.Core.Path.{◌≡◌, refl, sym, ap, ◌∙◌}
use mathlib.Core.Logic.{inl, inr}
use mathlib.Core.Bool.{Bool, true, false}
use mathlib.Core.List.{List, [], ◌∷◌, Memᴰ}
use mathlib.Core.Option.{some}
use native.Mathlib.Omega.{arith}
use minori.Common.Tests.{Bool-cases}
use minori.Common.Lists.{All, All-map, insert_by, sort_by}
use minori.Common.Table.{select, count, find}
use minori.Common.Table.Counts.{count-pos_of_mem}

module _ {A : Type 0} (before : A → A → Bool) where
  -- `xs` is not empty and starts, in order, with an entry that none comes before.
  pub record Starts (xs : List A) : Type 0 where
    pub least : A
    pub rest : List A
    pub sorted : sort_by before xs ≡ least ∷ rest
    pub minimal : All (λ z. before z least ≡ false) xs
    pub entry : Memᴰ least xs

  module _ (asym : (a b : A) → before a b ≡ true → before b a ≡ false)
      (follows : (a b c : A) → before a b ≡ false → before b c ≡ false → before a c ≡ false) where
    before_irrefl : (a : A) → before a a ≡ false
    before_irrefl a = elim (Bool-cases (before a a)) [ inl e ↦ asym a a e | inr e ↦ e ]

    Starts-cons : (x : A) (xs : List A) → Starts xs → Starts (x ∷ xs)
    Starts-cons x xs s = elim (Bool-cases (before s.least x)) [
      | inl e ↦ record {
        least = s.least;
        rest = insert_by before x s.rest;
        sorted = rw s.sorted (rw e);
        minimal = (asym s.least x e, s.minimal);
        entry = Memᴰ.tail s.entry;
      }
      | inr e ↦ record {
        least = x;
        rest = s.least ∷ s.rest;
        sorted = rw s.sorted (rw e);
        minimal = (
          before_irrefl x,
          All-map (λ z. before z s.least ≡ false) (λ z. before z x ≡ false) xs
              (λ z h. follows z s.least x h e) s.minimal,
        );
        entry = Memᴰ.head refl;
      }
    ]

    pub sort_by-Starts : (x : A) (xs : List A) → Starts (x ∷ xs)
    sort_by-Starts x [] = record {
      least = x;
      rest = [];
      sorted = refl;
      minimal = (before_irrefl x, tt);
      entry = Memᴰ.head refl;
    }
    sort_by-Starts x (y ∷ ys) = Starts-cons x (y ∷ ys) (sort_by-Starts y ys)

module _ {A : Type 0} where
  pub select-mem :
      (p : A → Bool) (xs : List A) (x : A) → Memᴰ x xs → p x ≡ true → Memᴰ x (select p xs)
  select-mem p [] x m h = elim m [ ]
  select-mem p (y ∷ ys) x (Memᴰ.head e) h = rw (sym (ap p e) ∙ h) (Memᴰ.head e)
  select-mem p (y ∷ ys) x (Memᴰ.tail m) h = elim (Bool-cases (p y)) [
    | inl e ↦ rw e (Memᴰ.tail (select-mem p ys x m h))
    | inr e ↦ rw e (select-mem p ys x m h)
  ]

  mem_picked :
      (p : A → Bool) (y : A) (ys : List A) (x : A)
      → p y ≡ true
      → (Memᴰ x (select p ys) → Memᴰ x ys × (p x ≡ true))
      → Memᴰ x (y ∷ select p ys)
      → Memᴰ x (y ∷ ys) × (p x ≡ true)
  mem_picked p y ys x e ih (Memᴰ.head q) = (Memᴰ.head q, ap p q ∙ e)
  mem_picked p y ys x e ih (Memᴰ.tail k) = let (m, h) = ih k in (Memᴰ.tail m, h)

  pub mem-select :
      (p : A → Bool) (xs : List A) (x : A) → Memᴰ x (select p xs) → Memᴰ x xs × (p x ≡ true)
  mem-select p [] x m = elim m [ ]
  mem-select p (y ∷ ys) x m = elim (Bool-cases (p y)) [
    | inl e ↦ mem_picked p y ys x e (mem-select p ys x) (rw e at m)
    | inr e ↦ let (m', h) = mem-select p ys x (rw e at m) in (Memᴰ.tail m', h)
  ]

  mem-insert_by :
      (before : A → A → Bool) (y : A) (xs : List A) (x : A)
      → Memᴰ x (insert_by before y xs)
      → Memᴰ x (y ∷ xs)
  mem-insert_by before y [] x m = m
  mem-insert_by before y (z ∷ zs) x m = elim (Bool-cases (before z y)) [
    | inl e ↦ passed y z zs x (mem-insert_by before y zs x) (rw e at m)
    | inr e ↦ rw e at m
  ]
    where
      passed :
          (y z : A) (zs : List A) (x : A)
          → (Memᴰ x (insert_by before y zs) → Memᴰ x (y ∷ zs))
          → Memᴰ x (z ∷ insert_by before y zs)
          → Memᴰ x (y ∷ z ∷ zs)
      passed y z zs x ih (Memᴰ.head e) = Memᴰ.tail (Memᴰ.head e)
      passed y z zs x ih (Memᴰ.tail k) = elim (ih k) [
        | Memᴰ.head e ↦ Memᴰ.head e
        | Memᴰ.tail l ↦ Memᴰ.tail (Memᴰ.tail l)
      ]

  pub mem-sort_by :
      (before : A → A → Bool) (xs : List A) (x : A) → Memᴰ x (sort_by before xs) → Memᴰ x xs
  mem-sort_by before [] x m = m
  mem-sort_by before (y ∷ ys) x m =
      mem_of_insert y ys x (mem-sort_by before ys x)
        (mem-insert_by before y (sort_by before ys) x m)
    where
      mem_of_insert :
          (y : A) (ys : List A) (x : A)
          → (Memᴰ x (sort_by before ys) → Memᴰ x ys)
          → Memᴰ x (y ∷ sort_by before ys)
          → Memᴰ x (y ∷ ys)
      mem_of_insert y ys x ih (Memᴰ.head e) = Memᴰ.head e
      mem_of_insert y ys x ih (Memᴰ.tail k) = Memᴰ.tail (ih k)

  select-eq_nil : (p : A → Bool) (xs : List A) → count p xs ≡ 0 → select p xs ≡ []
  select-eq_nil p [] h = refl
  select-eq_nil p (y ∷ ys) h = ground (arith, select-eq_nil p ys)

  -- A selection by a unique key is the row found.
  pub select-find :
      (p : A → Bool) (xs : List A) (x : A)
      → count p xs ≤ 1
      → find p xs ≡ some x
      → select p xs ≡ x ∷ []
  select-find p [] x u h = absurd (cc)
  select-find p (y ∷ ys) x u h = ground (arith, select-eq_nil p ys, select-find p ys x)

  count_tail : (p : A → Bool) (y : A) (ys : List A) → count p ys ≤ count p (y ∷ ys)
  count_tail p y ys = ground arith

  -- A row with a unique key is the one found.
  pub find-mem :
      (p : A → Bool) (xs : List A) (x : A)
      → count p xs ≤ 1
      → Memᴰ x xs
      → p x ≡ true
      → find p xs ≡ some x
  find-mem p [] x u m h = elim m [ ]
  find-mem p (y ∷ ys) x u (Memᴰ.head e) h = rw (sym (ap p e) ∙ h) (ap some (sym e))
  find-mem p (y ∷ ys) x u (Memᴰ.tail m) h =
      ground
        (arith, find-mem p ys x (omega (arith, count_tail p y ys)) m h, count-pos_of_mem p ys x m h)
