-- ===== src/Common/Sorting/Kept.antt =====
-- `order by` loses no row, and `limit` none that is within it.
use mathlib.Core.List.{Memᴰ}
use minori.Common.{
  ℕ, zero, suc, ◌≤◌, ◌≡◌, refl, ap, ◌∙◌, inl, inr, List, [], ◌∷◌, Bool, Bool-cases, length, take,
  insert_by, sort_by, arith,
}
use minori.Common.Table.{select, count}

module _ {A : Type 0} where
  pub mem-take : (n : ℕ) (xs : List A) (x : A) → Memᴰ x (take n xs) → Memᴰ x xs
  mem-take zero xs x m = elim m [ ]
  mem-take (suc n) [] x m = m
  mem-take (suc n) (y ∷ ys) x (Memᴰ.head e) = Memᴰ.head e
  mem-take (suc n) (y ∷ ys) x (Memᴰ.tail m) = Memᴰ.tail (mem-take n ys x m)

  pub take-eq_self : (n : ℕ) (xs : List A) → length xs ≤ n → take n xs ≡ xs
  take-eq_self zero [] h = refl
  take-eq_self zero (x ∷ xs) h = absurd (omega (arith, h))
  take-eq_self (suc n) [] h = refl
  take-eq_self (suc n) (x ∷ xs) h = ap (◌∷◌ x) (take-eq_self n xs (omega (arith, h)))

  pub length-select : (p : A → Bool) (xs : List A) → length (select p xs) ≡ count p xs
  length-select p [] = refl
  length-select p (x ∷ xs) = elim (Bool-cases (p x)) [
    | inl e ↦ rw e (ap suc (length-select p xs))
    | inr e ↦ rw e (length-select p xs)
  ]

  module _ (before : A → A → Bool) where
    length-insert_by : (x : A) (xs : List A) → length (insert_by before x xs) ≡ suc (length xs)
    length-insert_by x [] = refl
    length-insert_by x (y ∷ ys) = elim (Bool-cases (before y x)) [
      | inl e ↦ rw e (ap suc (length-insert_by x ys))
      | inr e ↦ rw e refl
    ]

    pub length-sort_by : (xs : List A) → length (sort_by before xs) ≡ length xs
    length-sort_by [] = refl
    length-sort_by (x ∷ xs) = length-insert_by x (sort_by before xs) ∙ ap suc (length-sort_by xs)

    insert_by-mem : (x : A) (xs : List A) (z : A) → Memᴰ z (x ∷ xs) → Memᴰ z (insert_by before x xs)
    insert_by-mem x [] z m = m
    insert_by-mem x (y ∷ ys) z m = elim (Bool-cases (before y x)) [
      | inl e ↦ rw e (elim m [
        | Memᴰ.head q ↦ Memᴰ.tail (insert_by-mem x ys z (Memᴰ.head q))
        | Memᴰ.tail later ↦ elim later [
          | Memᴰ.head q ↦ Memᴰ.head q
          | Memᴰ.tail rest ↦ Memᴰ.tail (insert_by-mem x ys z (Memᴰ.tail rest))
        ]
      ])
      | inr e ↦ rw e m
    ]

    pub sort_by-mem : (xs : List A) (z : A) → Memᴰ z xs → Memᴰ z (sort_by before xs)
    sort_by-mem [] z m = m
    sort_by-mem (x ∷ xs) z (Memᴰ.head e) = insert_by-mem x (sort_by before xs) z (Memᴰ.head e)
    sort_by-mem (x ∷ xs) z (Memᴰ.tail m) =
        insert_by-mem x (sort_by before xs) z (Memᴰ.tail (sort_by-mem xs z m))
