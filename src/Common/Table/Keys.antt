-- ===== src/Common/Table/Keys.antt =====
-- Rows found by a key: what an update, an insertion or a second condition does to the row found.
use Prim.Native.Nat.{ℕ, ◌≤◌}
use mathlib.Core.Path.{◌∙◌, ◌≡◌, refl}
use mathlib.Core.Logic.{inl, inr}
use mathlib.Core.Bool.{Bool, true, ◌&&◌, not}
use mathlib.Core.Option.{Option, none, some}
use mathlib.Core.List.{List, [], ◌∷◌, ◌++◌, Memᴰ}
use native.Mathlib.Omega.{arith}
use minori.Common.Tests.{if◌then◌else◌, Bool-cases, or_else}
use minori.Common.Lists.{take, sort_by}
use minori.Common.Table.{select, count, exists, find, update}
use minori.Common.Table.Counts.{
  count-select, count-pos_of_mem, count-pos_of_exists, exists-take, exists-sort_by,
}

abbrev pub map_some {ℓ κ} : {A : Type ℓ} {B : Type κ} → (A → B) → Option A → Option B
map_some f none = none
map_some f (some a) = some (f a)

module _ {ℓ} {A : Type ℓ} where
  pub find-update :
      (k p : A → Bool) (f : A → A) (xs : List A)
      → ((x : A) → k (f x) ≡ k x)
      → find k (update p f xs) ≡ map_some (λ x. if p x then f x else x) (find k xs)
  find-update k p f [] h = refl
  find-update k p f (x ∷ xs) h = elim (Bool-cases (k x)) [
    | inl e ↦ elim (Bool-cases (p x)) [
      | inl d ↦ rw (d, h x, e) (rw d refl)
      | inr d ↦ rw (d, e) (rw d refl)
    ]
    | inr e ↦ elim (Bool-cases (p x)) [
      | inl d ↦ rw (d, h x, e) (find-update k p f xs h)
      | inr d ↦ rw (d, e) (find-update k p f xs h)
    ]
  ]

  pub find-append :
      (k : A → Bool) (xs ys : List A) → find k (xs ++ ys) ≡ or_else (find k xs) (find k ys)
  find-append k [] ys = refl
  find-append k (x ∷ xs) ys = ground (arith, find-append k xs ys)

  pub find-eq_none : (k : A → Bool) (xs : List A) → count k xs ≡ 0 → find k xs ≡ none
  find-eq_none k [] h = refl
  find-eq_none k (x ∷ xs) h = ground (arith, find-eq_none k xs)

  pub count-and-le : (k q : A → Bool) (xs : List A) → count (λ x. k x && q x) xs ≤ count k xs
  count-and-le k q [] = omega arith
  count-and-le k q (x ∷ xs) = ground (arith, count-and-le k q xs)

  -- Where a key is unique, a further condition holds of the row found or of none.
  pub find-and :
      (k q : A → Bool) (xs : List A) (x : A)
      → count k xs ≤ 1
      → find k xs ≡ some x
      → find (λ y. k y && q y) xs ≡ (if q x then some x else none)
  find-and k q [] x u h = absurd (cc)
  find-and k q (y ∷ ys) x u h =
      ground (arith, find-and k q ys x, find-eq_none (λ z. k z && q z) ys, count-and-le k q ys)

  pub count-and :
      (k q : A → Bool) (xs : List A) (x : A)
      → count k xs ≤ 1
      → find k xs ≡ some x
      → count (λ y. k y && q y) xs ≡ (if q x then 1 else 0)
  count-and k q [] x u h = absurd (cc)
  count-and k q (y ∷ ys) x u h = ground (arith, count-and k q ys x, count-and-le k q ys)

  pub count-congr : (p q : A → Bool) (xs : List A) → ((x : A) → p x ≡ q x) → count p xs ≡ count q xs
  count-congr p q [] h = refl
  count-congr p q (x ∷ xs) h = ground (arith, h x, count-congr p q xs h)

  pub count-and-and :
      (k r q : A → Bool) (xs : List A) (x : A)
      → count k xs ≤ 1
      → find k xs ≡ some x
      → count (λ y. (k y && r y) && q y) xs ≡ (if r x && q x then 1 else 0)
  count-and-and k r q xs x u h =
      count-congr (λ y. (k y && r y) && q y) (λ y. k y && (r y && q y)) xs (λ y. ground arith)
      ∙ count-and k (λ y. r y && q y) xs x u h

  -- Rows that are picked by their key out of a selection satisfy the selection's condition.
  pub picked-selected :
      (k q : A → Bool) (before : A → A → Bool) (n : ℕ) (xs : List A) (x : A)
      → count k xs ≤ 1
      → Memᴰ x xs
      → k x ≡ true
      → exists k (take n (sort_by before (select q xs))) ≡ true
      → q x ≡ true
  picked-selected k q before n xs x u m h e = elim (Bool-cases (q x)) [
    | inl good ↦ good
    | inr bad ↦ absurd (
        ground (
          arith,
          count-select k q xs,
          count-pos_of_mem (λ y. k y && not (q y)) xs x m,
          count-pos_of_exists k (select q xs),
          exists-sort_by k before (select q xs),
          exists-take k n (sort_by before (select q xs)),
        ))
  ]
