-- ===== src/Common/Table/Counts.antt =====
-- Laws of the table statements: how selections, counts and updates act on one another.
use Prim.Native.Nat.{ℕ, suc, ◌+◌, ◌≤◌}
use mathlib.Core.Path.{◌≡◌, refl, sym, ap, ◌∙◌}
use mathlib.Core.Logic.{inl, inr}
use mathlib.Core.Bool.{Bool, true, false, ◌&&◌, ◌||◌, not}
use mathlib.Core.Option.{none, some}
use mathlib.Core.List.{List, [], ◌∷◌, ◌++◌, Memᴰ}
use native.Mathlib.Omega.{arith}
use minori.Common.Tests.{Bool-cases}
use minori.Common.Lists.{All, take, insert_by, sort_by}
use minori.Common.Table.{select, count, exists, find, update}

module _ {ℓ} {A : Type ℓ} where
  pub update-eq_of_count :
      (p : A → Bool) (f : A → A) (xs : List A) → count p xs ≡ 0 → update p f xs ≡ xs
  update-eq_of_count p f [] h = refl
  update-eq_of_count p f (x ∷ xs) h = elim (Bool-cases (p x)) [
    | inl e ↦ absurd (ground arith)
    | inr e ↦ rw e (ap (◌∷◌ x) (update-eq_of_count p f xs (ground arith)))
  ]

  pub count-update-le :
      (q p : A → Bool) (f : A → A) (xs : List A) → count q (update p f xs) ≤ count q xs + count p xs
  count-update-le q p f [] = omega arith
  count-update-le q p f (x ∷ xs) = ground (arith, count-update-le q p f xs)

  -- An update that never turns a test on does not raise its count.
  pub count-update-antitone :
      (q p : A → Bool) (f : A → A) (xs : List A)
      → ((x : A) → q (f x) ≡ true → q x ≡ true)
      → count q (update p f xs) ≤ count q xs
  count-update-antitone q p f [] h = omega arith
  count-update-antitone q p f (x ∷ xs) h = ground (arith, h x, count-update-antitone q p f xs h)

  -- An update that does not touch what a test reads keeps its count.
  pub count-update-eq :
      (q p : A → Bool) (f : A → A) (xs : List A)
      → ((x : A) → q (f x) ≡ q x)
      → count q (update p f xs) ≡ count q xs
  count-update-eq q p f [] h = refl
  count-update-eq q p f (x ∷ xs) h = ground (arith, h x, count-update-eq q p f xs h)

  pub count-append : (q : A → Bool) (xs ys : List A) → count q (xs ++ ys) ≡ count q xs + count q ys
  count-append q [] ys = omega arith
  count-append q (x ∷ xs) ys = ground (arith, count-append q xs ys)

  pub count-or-le :
      (p q : A → Bool) (xs : List A) → count (λ x. p x || q x) xs ≤ count p xs + count q xs
  count-or-le p q [] = omega arith
  count-or-le p q (x ∷ xs) = ground (arith, count-or-le p q xs)

  pub count-false : (xs : List A) → count (λ x. false) xs ≡ 0
  count-false [] = refl
  count-false (x ∷ xs) = count-false xs

  pub count-select :
      (p q : A → Bool) (xs : List A)
      → count p (select q xs) + count (λ x. p x && not (q x)) xs ≡ count p xs
  count-select p q [] = omega arith
  count-select p q (x ∷ xs) = ground (arith, count-select p q xs)

  pub count-pos_of_mem :
      (p : A → Bool) (xs : List A) (x : A) → Memᴰ x xs → p x ≡ true → 1 ≤ count p xs
  count-pos_of_mem p [] x m h = elim m [ ]
  count-pos_of_mem p (y ∷ ys) x (Memᴰ.head e) h = ground (arith, ap p e)
  count-pos_of_mem p (y ∷ ys) x (Memᴰ.tail m) h = ground (arith, count-pos_of_mem p ys x m h)

  pub count-pos_of_exists : (p : A → Bool) (xs : List A) → exists p xs ≡ true → 1 ≤ count p xs
  count-pos_of_exists p [] h = absurd (cc)
  count-pos_of_exists p (x ∷ xs) h = ground (arith, count-pos_of_exists p xs)

  pub count-zero_of_exists : (p : A → Bool) (xs : List A) → exists p xs ≡ false → count p xs ≡ 0
  count-zero_of_exists p [] h = refl
  count-zero_of_exists p (x ∷ xs) h = ground (arith, count-zero_of_exists p xs)

  pub exists-append :
      (p : A → Bool) (xs ys : List A) → exists p (xs ++ ys) ≡ (exists p xs || exists p ys)
  exists-append p [] ys = refl
  exists-append p (x ∷ xs) ys = ground (arith, exists-append p xs ys)

  pub exists-take :
      (p : A → Bool) (n : ℕ) (xs : List A) → exists p (take n xs) ≡ true → exists p xs ≡ true
  exists-take p ℕ.zero xs h = absurd (cc)
  exists-take p (suc n) [] h = h
  exists-take p (suc n) (x ∷ xs) h = ground (arith, exists-take p n xs)

  exists-insert_by :
      (p : A → Bool) (before : A → A → Bool) (x : A) (xs : List A)
      → exists p (insert_by before x xs) ≡ (p x || exists p xs)
  exists-insert_by p before x [] = refl
  exists-insert_by p before x (y ∷ ys) = ground (arith, exists-insert_by p before x ys)

  pub exists-sort_by :
      (p : A → Bool) (before : A → A → Bool) (xs : List A)
      → exists p (sort_by before xs) ≡ exists p xs
  exists-sort_by p before [] = refl
  exists-sort_by p before (x ∷ xs) =
      exists-insert_by p before x (sort_by before xs)
      ∙ ap (λ (b : Bool). p x || b) (exists-sort_by p before xs)

  pub All-update :
      (P Q : A → Type 0) (p : A → Bool) (f : A → A) (xs : List A)
      → ((x : A) → p x ≡ true → P x → Q (f x))
      → ((x : A) → p x ≡ false → P x → Q x)
      → All P xs
      → All Q (update p f xs)
  All-update P Q p f [] hit miss h = tt
  All-update P Q p f (x ∷ xs) hit miss h = elim (Bool-cases (p x)) [
    | inl e ↦ rw e (hit x e h.0, All-update P Q p f xs hit miss h.1)
    | inr e ↦ rw e (miss x e h.0, All-update P Q p f xs hit miss h.1)
  ]

  pub exists-update-antitone :
      (q q' : A → Bool) (p : A → Bool) (f : A → A) (xs : List A)
      → ((x : A) → Memᴰ x xs → p x ≡ true → q' (f x) ≡ true → q x ≡ true)
      → ((x : A) → q' x ≡ true → q x ≡ true)
      → exists q xs ≡ false
      → exists q' (update p f xs) ≡ false
  exists-update-antitone q q' p f [] hit miss h = refl
  exists-update-antitone q q' p f (x ∷ xs) hit miss h = ground (
    arith,
    hit x (Memᴰ.head refl),
    miss x,
    exists-update-antitone q q' p f xs (λ y m. hit y (Memᴰ.tail m)) miss,
  )

  pub find-some :
      (p : A → Bool) (xs : List A) (x : A) → find p xs ≡ some x → (p x ≡ true) × Memᴰ x xs
  find-some p [] x h = absurd (cc)
  find-some p (y ∷ ys) x h = elim (Bool-cases (p y)) [
    | inl e ↦ let same : y ≡ x = ground arith in (sym (ap p same) ∙ e, Memᴰ.head (sym same))
    | inr e ↦ let (good, there) = find-some p ys x (ground arith) in (good, Memᴰ.tail there)
  ]

  pub find-none : (p : A → Bool) (xs : List A) → find p xs ≡ none → count p xs ≡ 0
  find-none p [] h = refl
  find-none p (x ∷ xs) h = ground (arith, find-none p xs)
