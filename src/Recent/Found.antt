-- ===== src/Recent/Found.antt =====
-- What the search finds: the messages that have every term, whatever characters a term has.
use minori.Common.{
  ℕ, ◌≡◌, refl, sym, ap, ◌∙◌, ◌↔◌, inl, inr, [], ◌∷◌, ◌++◌, map, some, Bool, true, false, ◌&&◌,
  ◌||◌, ◌==◌, ==_iff, &&_iff, arith, Bool-cases,
}
use minori.Common.Text.{codes_start_with}
use minori.Sources.{Text}
use minori.Recent.Search.{
  is_special, escape_like, pattern_of, any_text, literal, pieces, some_rest, like, ilike, has_term,
}

-- How the database ignores case: the characters that patterns give a meaning stay what they are, and
-- no other character becomes one of them.
pub record IsFolding (fold : ℕ → ℕ) : Type 0 where
  pub fixes : (c : ℕ) → is_special c ≡ true → fold c ≡ c
  pub apart : (c : ℕ) → is_special c ≡ false → is_special (fold c) ≡ false

abbrev pub Contains : Text → Text → Type 0
Contains part s = (before : Text) × (after : Text) × (s ≡ before ++ part ++ after)

pieces-special :
    (c : ℕ) (s : Text)
    → is_special c ≡ true
    → pieces false (b'\\' ∷ c ∷ s) ≡ literal c ∷ pieces false s
pieces-special c s h = refl

pieces-plain :
    (c : ℕ) (s : Text) → is_special c ≡ false → pieces false (c ∷ s) ≡ literal c ∷ pieces false s
pieces-plain c s h = ground arith

pieces-escape_like :
    (fold : ℕ → ℕ) (f : IsFolding fold) (s r : Text)
    → pieces false (map fold (escape_like s ++ r))
      ≡ map literal (map fold s) ++ pieces false (map fold r)
pieces-escape_like fold f [] r = refl
pieces-escape_like fold f (c ∷ s) r = elim (Bool-cases (is_special c)) [
  | inl e ↦
      rw e (rw (f.fixes b'\\' refl) (ap (◌∷◌ (literal (fold c))) (pieces-escape_like fold f s r)))
  | inr e ↦ rw e (
      pieces-plain (fold c) _ (f.apart c e)
      ∙ ap (◌∷◌ (literal (fold c))) (pieces-escape_like fold f s r))
]

like_all : (s : Text) → some_rest (like []) s ≡ true
like_all [] = refl
like_all (c ∷ s) = like_all s

like-literals : (xs s : Text) → like (map literal xs ++ any_text ∷ []) s ≡ codes_start_with xs s
like-literals [] s = like_all s
like-literals (x ∷ xs) [] = refl
like-literals (x ∷ xs) (c ∷ s) = ap (λ b. x == c && b) (like-literals xs s)

some_rest-ext :
    (p q : Text → Bool) → ((s : Text) → p s ≡ q s) → (s : Text) → some_rest p s ≡ some_rest q s
some_rest-ext p q h [] = h []
some_rest-ext p q h (c ∷ s) = rw (h (c ∷ s)) (ap (λ b. q (c ∷ s) || b) (some_rest-ext p q h s))

-- The pattern of a term is fulfilled where the term starts somewhere in the content.
ilike-pattern_of :
    (fold : ℕ → ℕ) (f : IsFolding fold) (content term : Text)
    → ilike fold content (pattern_of term)
      ≡ some_rest (codes_start_with (map fold term)) (map fold content)
unfolding ilike
ilike-pattern_of fold f content term = rw (f.fixes b'%' refl) (
    rw (pieces-escape_like fold f term (b'%' ∷ [])) (
      rw (f.fixes b'%' refl)
        (some_rest-ext _ _ (like-literals (map fold term)) (map fold content))))

starts-append : (xs s : Text) → codes_start_with xs (xs ++ s) ≡ true
starts-append [] s = refl
starts-append (x ∷ xs) s = rw ((==_iff x x).1 refl) (starts-append xs s)

starts-split : (xs s : Text) → codes_start_with xs s ≡ true → (after : Text) × (s ≡ xs ++ after)
starts-split [] s h = (s, refl)
starts-split (x ∷ xs) [] h = absurd (cc)
starts-split (x ∷ xs) (c ∷ s) h =
    let (same, later) = (&&_iff (x == c) (codes_start_with xs s)).0 h in
    let (after, e) = starts-split xs s later in
    (after, ap (λ t. c ∷ t) e ∙ ap (λ y. y ∷ xs ++ after) (sym ((==_iff x c).0 same)))

some_rest-Contains : (part s : Text) → some_rest (codes_start_with part) s ≡ true → Contains part s
some_rest-Contains part [] h = let (after, e) = starts-split part [] h in ([], after, e)
some_rest-Contains part (c ∷ s) h = elim (Bool-cases (codes_start_with part (c ∷ s))) [
  | inl here ↦ let (after, e) = starts-split part (c ∷ s) here in ([], after, e)
  | inr later ↦
      let (before, after, e) = some_rest-Contains part s (rw later at h) in
      (c ∷ before, after, ap (λ t. c ∷ t) e)
]

starts-some_rest :
    (part s : Text) → codes_start_with part s ≡ true → some_rest (codes_start_with part) s ≡ true
starts-some_rest part [] h = h
starts-some_rest part (c ∷ s) h = rw h refl

Contains-some_rest :
    (part before after : Text) → some_rest (codes_start_with part) (before ++ part ++ after) ≡ true
Contains-some_rest part [] after = starts-some_rest part (part ++ after) (starts-append part after)
Contains-some_rest part (b ∷ before) after =
    elim (Bool-cases (codes_start_with part (b ∷ before ++ part ++ after))) [
      | inl e ↦ rw e refl
      | inr e ↦ rw e (Contains-some_rest part before after)
    ]

-- A term of the search is found in a content just where the content contains it, without regard to
-- case; that a term has the characters of patterns makes no difference.
pub has_term-Contains :
    (fold : ℕ → ℕ) (f : IsFolding fold) (content term : Text)
    → (has_term fold (some content) term ≡ true) ↔ Contains (map fold term) (map fold content)
unfolding ilike
has_term-Contains fold f content term = (
  λ h.
      some_rest-Contains (map fold term) (map fold content)
        (sym (ilike-pattern_of fold f content term) ∙ h),
  λ (before, after, e).
      ilike-pattern_of fold f content term
      ∙ ap (some_rest (codes_start_with (map fold term))) e
      ∙ Contains-some_rest (map fold term) before after,
)
