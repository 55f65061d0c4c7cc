-- ===== src/Recent/Words.antt =====
-- The words of a text, and which of them a search takes as its terms.
use minori.Common.{
  ℕ, ◌≡◌, refl, sym, ap, ◌∙◌, inl, inr, List, [], ◌∷◌, ◌++◌, true, false, ◌&&◌, not, if◌then◌else◌,
  Bool-cases, All, take,
}
use minori.Common.Table.{select}
use minori.Common.Text.{is_space}
use minori.Sources.{Text, is_nil, trim_start, trim_end}
use minori.Recent.Search.{with_first, split_at_spaces, terms_of}

-- The text is at its end or goes on with white space.
abbrev pub IsBreak : Text → Type 0
IsBreak [] = Unit {0}
IsBreak (c ∷ s) = is_space c ≡ true

-- A text is a sequence of white space and of words, which are not empty, have no white space, and end
-- where white space begins or the text ends.
pub data Words : Text → List Text → Type 0 where
  ends : Words [] []
  space : (c : ℕ) (s : Text) (ws : List Text) → is_space c ≡ true → Words s ws → Words (c ∷ s) ws
  word :
      (c : ℕ) (w s : Text) (ws : List Text)
      → All (λ x. is_space x ≡ false) (c ∷ w)
      → IsBreak s
      → Words s ws
      → Words ((c ∷ w) ++ s) ((c ∷ w) ∷ ws)

abbrev first : List Text → Text
first [] = []
first (w ∷ ws) = w

abbrev later : List Text → List Text
later [] = []
later (w ∷ ws) = ws

first-with_first : (c : ℕ) (ws : List Text) → first (with_first c ws) ≡ c ∷ first ws
first-with_first c [] = refl
first-with_first c (w ∷ ws) = refl

later-with_first : (c : ℕ) (ws : List Text) → later (with_first c ws) ≡ later ws
later-with_first c [] = refl
later-with_first c (w ∷ ws) = refl

-- The part up to the first white space, and the words after it.
abbrev head_of : Text → Text
head_of s = first (split_at_spaces s)

abbrev rest_of : Text → List Text
rest_of s = select (λ w. not (is_nil w)) (later (split_at_spaces s))

abbrev words_of : Text → List Text
words_of s = select (λ w. not (is_nil w)) (split_at_spaces s)

abbrev add_word : Text → List Text → List Text
add_word [] ws = ws
add_word (c ∷ w) ws = (c ∷ w) ∷ ws

pieces_of :
    (ws : List Text)
    → select (λ w. not (is_nil w)) ws
      ≡ add_word (first ws) (select (λ w. not (is_nil w)) (later ws))
pieces_of [] = refl
pieces_of ([] ∷ ws) = refl
pieces_of ((c ∷ w) ∷ ws) = refl

words_of-add_word : (s : Text) → words_of s ≡ add_word (head_of s) (rest_of s)
words_of-add_word s = pieces_of (split_at_spaces s)

module _ (c : ℕ) (s : Text) where
  module _ (h : is_space c ≡ true) where
    head_of-space : head_of (c ∷ s) ≡ []
    unfolding split_at_spaces
    head_of-space = rw h refl

    rest_of-space : rest_of (c ∷ s) ≡ words_of s
    unfolding split_at_spaces
    rest_of-space = rw h refl

    words_of-space : words_of (c ∷ s) ≡ words_of s
    unfolding split_at_spaces
    words_of-space = rw h refl

  module _ (h : is_space c ≡ false) where
    head_of-letter : head_of (c ∷ s) ≡ c ∷ head_of s
    unfolding split_at_spaces
    head_of-letter = rw h (first-with_first c (split_at_spaces s))

    rest_of-letter : rest_of (c ∷ s) ≡ rest_of s
    unfolding split_at_spaces
    rest_of-letter =
        rw h (ap (select (λ w. not (is_nil w))) (later-with_first c (split_at_spaces s)))

head_of-nil : head_of [] ≡ []
unfolding split_at_spaces
head_of-nil = refl

words_of-nil : words_of [] ≡ []
unfolding split_at_spaces
words_of-nil = refl

head_of-break : (s : Text) → IsBreak s → head_of s ≡ []
head_of-break [] h = head_of-nil
head_of-break (c ∷ s) h = head_of-space c s h

head_of-word : (w s : Text) → All (λ x. is_space x ≡ false) w → IsBreak s → head_of (w ++ s) ≡ w
head_of-word [] s h b = head_of-break s b
head_of-word (c ∷ w) s h b =
    head_of-letter c (w ++ s) h.0 ∙ ap (λ r. c ∷ r) (head_of-word w s h.1 b)

rest_of-word : (w s : Text) → All (λ x. is_space x ≡ false) w → rest_of (w ++ s) ≡ rest_of s
rest_of-word [] s h = refl
rest_of-word (c ∷ w) s h = rest_of-letter c (w ++ s) h.0 ∙ rest_of-word w s h.1

words_of-break : (s : Text) → IsBreak s → words_of s ≡ rest_of s
words_of-break s b = words_of-add_word s ∙ ap (λ w. add_word w (rest_of s)) (head_of-break s b)

words_of-Words : (s : Text) (ws : List Text) → Words s ws → words_of s ≡ ws
words_of-Words s ws Words.ends = words_of-nil
words_of-Words s ws (Words.space c s' ws' h w) = words_of-space c s' h ∙ words_of-Words s' ws w
words_of-Words s ws (Words.word c w s' ws' h b rest) =
    words_of-add_word ((c ∷ w) ++ s')
    ∙ ap (λ x. add_word x (rest_of ((c ∷ w) ++ s'))) (head_of-word (c ∷ w) s' h b)
    ∙ ap (λ x. (c ∷ w) ∷ x)
        (rest_of-word (c ∷ w) s' h ∙ sym (words_of-break s' b) ∙ words_of-Words s' ws' rest)

words_of-trim_start : (s : Text) → words_of (trim_start s) ≡ words_of s
unfolding trim_start
words_of-trim_start [] = refl
words_of-trim_start (c ∷ s) = elim (Bool-cases (is_space c)) [
  | inl h ↦ rw h (words_of-trim_start s ∙ sym (words_of-space c s h))
  | inr h ↦ rw h refl
]

-- Both parts are the same.
abbrev IsSame : Text → Text → Type 0
IsSame s t = (head_of s ≡ head_of t) × (rest_of s ≡ rest_of t)

IsSame-words_of : (s t : Text) → IsSame s t → words_of s ≡ words_of t
IsSame-words_of s t h =
    words_of-add_word s
    ∙ ap (λ w. add_word w (rest_of s)) h.0
    ∙ ap (add_word (head_of t)) h.1
    ∙ sym (words_of-add_word t)

cons-IsSame : (c : ℕ) (s t : Text) → IsSame s t → IsSame (c ∷ s) (c ∷ t)
cons-IsSame c s t h = elim (Bool-cases (is_space c)) [
  | inl e ↦ (
    head_of-space c s e ∙ sym (head_of-space c t e),
    rest_of-space c s e ∙ IsSame-words_of s t h ∙ sym (rest_of-space c t e),
  )
  | inr e ↦ (
    head_of-letter c s e ∙ ap (λ w. c ∷ w) h.0 ∙ sym (head_of-letter c t e),
    rest_of-letter c s e ∙ h.1 ∙ sym (rest_of-letter c t e),
  )
]

space-IsSame : (c : ℕ) → is_space c ≡ true → IsSame [] (c ∷ [])
unfolding split_at_spaces
space-IsSame c h = rw h (refl, refl)

IsSame-trans : (s t u : Text) → IsSame s t → IsSame t u → IsSame s u
IsSame-trans s t u h k = (h.0 ∙ k.0, h.1 ∙ k.1)

trimmed-IsSame :
    (c : ℕ) (s rest : Text)
    → IsSame rest s
    → IsSame (if is_nil rest && is_space c then [] else c ∷ rest) (c ∷ s)
trimmed-IsSame c s (x ∷ rest) h = cons-IsSame c (x ∷ rest) s h
trimmed-IsSame c s [] h = elim (Bool-cases (is_space c)) [
  | inl e ↦ rw e (IsSame-trans [] (c ∷ []) (c ∷ s) (space-IsSame c e) (cons-IsSame c [] s h))
  | inr e ↦ rw e (cons-IsSame c [] s h)
]

trim_end-IsSame : (s : Text) → IsSame (trim_end s) s
unfolding trim_end
trim_end-IsSame [] = (refl, refl)
trim_end-IsSame (c ∷ s) = trimmed-IsSame c s (trim_end s) (trim_end-IsSame s)

pub terms_of-Words : (query : Text) (ws : List Text) → Words query ws → terms_of query ≡ take 10 ws
unfolding terms_of
terms_of-Words query ws h = ap (take 10) (
    IsSame-words_of (trim_end (trim_start query)) (trim_start query)
      (trim_end-IsSame (trim_start query))
    ∙ words_of-trim_start query
    ∙ words_of-Words query ws h)
