-- ===== src/TeamContext/Replaced.antt =====
-- The replacement of a passage that occurs exactly once.
use package.text.Mathlib.TextEquality.{eq_iff, Char-path}
use Prim.Native.Char.{Char}
use minori.Common.{
  ◌≡◌, refl, sym, ap, ◌∙◌, inl, inr, String, List, [], ◌∷◌, Option, none, some, true, false, arith,
  Bool-cases,
}
use minori.Common.Text.{append, starts_with, drop_chars, includes, size, is_empty}
use minori.TeamContext.Text.{replaced, replace_exactly_once, split_at_first, prepend}
use minori.TeamContext.Update.{texts_eq}

-- The text has the passage exactly once, not counting overlaps, and the changed text has the
-- replacement in its place.
pub record Replaces (content pattern replacement changed : String) : Type 0 where
  pub before : String
  pub after : String
  pub content_parts : content ≡ append before (append pattern after)
  pub changed_parts : changed ≡ append before (append replacement after)
  pub only_once : includes pattern after ≡ false

starts-parts : (p s : String) → starts_with p s ≡ true → s ≡ append p (drop_chars (size p) s)
starts-parts String.[] s h = refl
starts-parts (String.◌∷◌ c p) String.[] h = absurd (cc)
starts-parts (String.◌∷◌ c p) (String.◌∷◌ d s) h =
    let same : c ≡ d = Char-path c d (ground arith) in
    let rest = starts-parts p s (ground arith) in λ i. String.◌∷◌ (sym same i) (rest i)

empty_text : (s : String) → is_empty s ≡ true → s ≡ ""
empty_text String.[] h = refl
empty_text (String.◌∷◌ c s) h = absurd (cc)

prepend-some :
    (c : Char) (o : Option (String × String)) (before after : String)
    → prepend c o ≡ some (before, after)
    → (b : String) × (o ≡ some (b, after)) × (before ≡ String.◌∷◌ c b)
prepend-some c none before after h = absurd (cc)
prepend-some c (some (b, a)) before after h =
    let eb : String.◌∷◌ c b ≡ before = ground arith in
    let ea : a ≡ after = ground arith in (b, ap (λ w. some (b, w)) ea, sym eb)

found_parts :
    (pattern content rest before after : String)
    → content ≡ append pattern rest
    → ◌≡◌ {A = Option (String × String)} (some ("", rest)) (some (before, after))
    → content ≡ append before (append pattern after)
found_parts pattern content rest before after q h =
    let eb : "" ≡ before = ground arith in
    let ea : rest ≡ after = ground arith in q ∙ (λ i. append (eb i) (append pattern (ea i)))

split-parts :
    (pattern content : String) (before after : String)
    → split_at_first pattern content ≡ some (before, after)
    → content ≡ append before (append pattern after)
split-parts pattern String.[] before after h = elim (Bool-cases (is_empty pattern)) [
  | inl e ↦
      found_parts pattern "" "" before after (ap (λ w. append w "") (sym (empty_text pattern e)))
        (rw e at h)
  | inr e ↦ absurd (ground arith)
]
split-parts pattern (String.◌∷◌ c s) before after h =
    elim (Bool-cases (starts_with pattern (String.◌∷◌ c s))) [
      | inl e ↦
          found_parts pattern (String.◌∷◌ c s) (drop_chars (size pattern) (String.◌∷◌ c s)) before
            after (starts-parts pattern (String.◌∷◌ c s) e) (rw e at h)
      | inr e ↦
          let (b, found, q) = prepend-some c (split_at_first pattern s) before after (rw e at h) in
          rw q (ap (String.◌∷◌ c) (split-parts pattern s b after found))
    ]

replaced-Replaces :
    (content pattern replacement changed : String) (parts : Option (String × String))
    → split_at_first pattern content ≡ parts
    → replaced pattern replacement parts ≡ some changed
    → Replaces content pattern replacement changed
unfolding replaced
replaced-Replaces content pattern replacement changed none found h = absurd (cc)
replaced-Replaces content pattern replacement changed (some (before, after)) found h =
    elim (Bool-cases (includes pattern after)) [
      | inl twice ↦ absurd (ground arith)
      | inr once ↦ record {
        before = before;
        after = after;
        content_parts = split-parts pattern content before after found;
        changed_parts = let given = rw once at h in ground arith;
        only_once = once;
      }
    ]

pub replace-Replaces :
    (content pattern replacement changed : String)
    → replace_exactly_once content pattern replacement ≡ some changed
    → Replaces content pattern replacement changed
unfolding replace_exactly_once
replace-Replaces content pattern replacement changed h =
    replaced-Replaces content pattern replacement changed (split_at_first pattern content) refl h

pub texts_eq→eq : (xs ys : List String) → texts_eq xs ys ≡ true → xs ≡ ys
texts_eq→eq [] [] h = refl
texts_eq→eq [] (y ∷ ys) h = absurd (cc)
texts_eq→eq (x ∷ xs) [] h = absurd (cc)
texts_eq→eq (x ∷ xs) (y ∷ ys) h =
    let ex : x ≡ y = ground (arith, eq_iff x y) in
    let rest = texts_eq→eq xs ys (ground arith) in λ i. ex i ∷ rest i
