-- ===== src/Recent/Budget.antt =====
-- The selection by a budget against its description.
use minori.Common.{
  ℕ, ◌+◌, ◌<◌, ◌≤◌, ◌≡◌, ◌⊎◌, inl, inr, refl, ap, List, [], ◌∷◌, ◌++◌, Bool, true, false, ◌&&◌,
  arith, if◌then◌else◌, length, ltb, Bool-cases,
}
use minori.Recent.{take_recent}

abbrev pub total : {A : Type 0} → (A → ℕ) → List A → ℕ
total tokens [] = 0
total tokens (x ∷ xs) = tokens x + total tokens xs

-- The next one, if there is one, does not fit any more.
abbrev pub NextExceeds : {A : Type 0} → (A → ℕ) → ℕ → ℕ → List A → Type 0
NextExceeds tokens token_target used [] = Unit {0}
NextExceeds tokens token_target used (y ∷ ys) = token_target < used + tokens y

-- Where nothing was selected before and there is one, one is selected.
abbrev pub SelectsOne : {A : Type 0} → Bool → List A → List A → Type 0
SelectsOne true xs s = Unit {0}
SelectsOne false [] s = Unit {0}
SelectsOne false (x ∷ xs) s = 1 ≤ length s

-- `s` is the longest start of `xs` that fits what is left of the target, and it is not empty if
-- nothing was selected before.
pub record IsLongestFit {A : Type 0} (tokens : A → ℕ) (token_target : ℕ) (any : Bool) (used : ℕ)
    (xs s : List A) : Type 0 where
  pub rest : List A
  pub start : xs ≡ s ++ rest
  pub fits : (used + total tokens s ≤ token_target) ⊎ (length s ≤ (if any then 0 else 1))
  pub is_longest : NextExceeds tokens token_target (used + total tokens s) rest
  pub some_selected : SelectsOne any xs s

exceeds_assoc :
    {A : Type 0} (tokens : A → ℕ) (token_target used n m : ℕ) (rest : List A)
    → NextExceeds tokens token_target (used + n + m) rest
    → NextExceeds tokens token_target (used + (n + m)) rest
exceeds_assoc tokens token_target used n m [] h = h
exceeds_assoc tokens token_target used n m (y ∷ ys) h = omega (arith, h)

selects-cons : {A : Type 0} (any : Bool) (x : A) (xs s : List A) → SelectsOne any (x ∷ xs) (x ∷ s)
selects-cons true x xs s = tt
selects-cons false x xs s = omega arith

total-nil : {A : Type 0} (tokens : A → ℕ) (s : List A) → length s ≤ 0 → total tokens s ≡ 0
total-nil tokens [] h = refl
total-nil tokens (x ∷ s) h = absurd (omega arith)

taken :
    {A : Type 0} (tokens : A → ℕ) (token_target : ℕ) (any : Bool) (used : ℕ) (x : A) (xs s : List A)
    → (any && ltb token_target (used + tokens x)) ≡ false
    → IsLongestFit tokens token_target true (used + tokens x) xs s
    → IsLongestFit tokens token_target any used (x ∷ xs) (x ∷ s)
taken tokens token_target any used x xs s h f = record {
  rest = f.rest;
  start = ap (λ l. x ∷ l) f.start;
  fits = elim f.fits [
    | inl fit ↦ inl (omega (arith, fit))
    | inr none_left ↦ ground (arith, total-nil tokens s none_left)
  ];
  is_longest =
      exceeds_assoc tokens token_target used (tokens x) (total tokens s) f.rest f.is_longest;
  some_selected = selects-cons any x xs s;
}

left :
    {A : Type 0} (tokens : A → ℕ) (token_target : ℕ) (any : Bool) (used : ℕ) (x : A) (xs : List A)
    → (any && ltb token_target (used + tokens x)) ≡ true
    → IsLongestFit tokens token_target any used (x ∷ xs) []
left tokens token_target true used x xs h = record {
  rest = x ∷ xs;
  start = refl;
  fits = inr (omega arith);
  is_longest = ground arith;
  some_selected = tt;
}
left tokens token_target false used x xs h = absurd (cc)

selects-nil : (A : Type 0) (any : Bool) → SelectsOne {A = A} any [] []
selects-nil A true = tt
selects-nil A false = tt

-- The loop selects the longest start of the messages, from the newest on, whose tokens fit the
-- target, and the newest message even if it does not fit.
pub take_recent-IsLongestFit :
    {A : Type 0} (tokens : A → ℕ) (token_target : ℕ) (any : Bool) (used : ℕ) (xs : List A)
    → IsLongestFit tokens token_target any used xs (take_recent tokens token_target any used xs)
unfolding take_recent
take_recent-IsLongestFit tokens token_target any used [] = record {
  rest = [];
  start = refl;
  fits = inr (omega arith);
  is_longest = tt;
  some_selected = selects-nil _ any;
}
take_recent-IsLongestFit tokens token_target any used (x ∷ xs) =
    elim (Bool-cases (any && ltb token_target (used + tokens x))) [
      | inl over ↦ rw over (left tokens token_target any used x xs over)
      | inr fit ↦ rw fit (
          taken tokens token_target any used x xs _ fit
            (take_recent-IsLongestFit tokens token_target true (used + tokens x) xs))
    ]
