-- ===== src/ChatDirectory/Exact.antt =====
-- What a resolution says of the matches that were set.
use package.text.Mathlib.Text.{◌==◌ as str_eq}
use minori.Common.{
  ◌≡◌, refl, sym, ap, ◌∙◌, inl, inr, String, List, [], ◌∷◌, ◌++◌, Option, none, some, Bool, true,
  false, ◌&&◌, ◌||◌, ◌==◌, ==_iff, arith, Bool-cases, All,
}
use minori.Common.Table.{exists}
use minori.Domain.{Ident}
use minori.ChatDirectory.{
  ChatItem, ChatMode, GroupResolution, resolved, not_found, ambiguous, unavailable, Match,
  is_group_like, folded_name, match_of, pushed, matched, set, set_all, resolution_of,
}

abbrev pub has_id : Ident → Match → Bool
has_id id m = m.id == id

abbrev pub has_name : (String → String) → String → Match → Bool
has_name lower expected m = str_eq (folded_name lower m.name) expected

abbrev pub AreApart : List Match → Type 0
AreApart [] = Unit {0}
AreApart (m ∷ ms) = (exists (has_id m.id) ms ≡ false) × AreApart ms

exists-set :
    (m : Match) (ms : List Match) (id : Ident)
    → exists (has_id id) (set m ms) ≡ (exists (has_id id) ms || (m.id == id))
exists-set m [] id = ground arith
exists-set m (x ∷ xs) id = elim (Bool-cases (x.id == m.id)) [
  | inl e ↦ let same = (==_iff x.id m.id).0 e in rw e (rw same (ground arith))
  | inr e ↦ rw e (ground (arith, exists-set m xs id))
]

set-AreApart : (m : Match) (ms : List Match) → AreApart ms → AreApart (set m ms)
set-AreApart m [] h = (refl, tt)
set-AreApart m (x ∷ xs) h = elim (Bool-cases (x.id == m.id)) [
  | inl e ↦ let same = (==_iff x.id m.id).0 e in rw e (rw same at h)
  | inr e ↦ rw e (ground (arith, exists-set m xs x.id, h.0), set-AreApart m xs h.1)
]

set_all-AreApart : (ps ms : List Match) → AreApart ms → AreApart (set_all ps ms)
set_all-AreApart [] ms h = h
set_all-AreApart (p ∷ ps) ms h = set_all-AreApart ps (set p ms) (set-AreApart p ms h)

exists-set_all :
    (ps ms : List Match) (id : Ident)
    → exists (has_id id) (set_all ps ms) ≡ (exists (has_id id) ms || exists (has_id id) ps)
exists-set_all [] ms id = ground arith
exists-set_all (p ∷ ps) ms id = ground (arith, exists-set_all ps (set p ms) id, exists-set p ms id)

matched-All :
    (lower : String → String) (expected : String) (is : List ChatItem)
    → All (λ m. has_name lower expected m ≡ true) (matched lower expected is)
unfolding matched
matched-All lower expected [] = tt
matched-All lower expected (i ∷ is) =
    pushed_named i.chat_mode i.chat_id i.name (matched-All lower expected is)
  where
    pushed_named :
        (mode : ChatMode) (id : Option Ident) (name : Option String)
        → All (λ m. has_name lower expected m ≡ true) (matched lower expected is)
        → All
            (λ m. has_name lower expected m ≡ true)
            (pushed (match_of lower expected mode id name) (matched lower expected is))
    pushed_named mode (some id) (some name) h =
        elim (Bool-cases (is_group_like mode && str_eq (folded_name lower name) expected)) [
          | inl e ↦ rw e (ground arith, h)
          | inr e ↦ rw e h
        ]
    pushed_named mode none name h = h
    pushed_named mode (some id) none h = h

pub matched-append :
    (lower : String → String) (expected : String) (is js : List ChatItem)
    → matched lower expected (is ++ js) ≡ matched lower expected is ++ matched lower expected js
unfolding matched
matched-append lower expected [] js = refl
matched-append lower expected (i ∷ is) js =
    ap (pushed (match_of lower expected i.chat_mode i.chat_id i.name))
      (matched-append lower expected is js)
    ∙ pushed-append (match_of lower expected i.chat_mode i.chat_id i.name)
  where
    pushed-append :
        (o : Option Match)
        → pushed o (matched lower expected is ++ matched lower expected js)
          ≡ pushed o (matched lower expected is) ++ matched lower expected js
    pushed-append none = refl
    pushed-append (some m) = refl

pub set_all-append : (ps qs ms : List Match) → set_all (ps ++ qs) ms ≡ set_all qs (set_all ps ms)
set_all-append [] qs ms = refl
set_all-append (p ∷ ps) qs ms = set_all-append ps qs (set p ms)

All-set : (P : Match → Type 0) (m : Match) (ms : List Match) → P m → All P ms → All P (set m ms)
All-set P m [] g h = (g, tt)
All-set P m (x ∷ xs) g h = elim (Bool-cases (x.id == m.id)) [
  | inl e ↦ rw e (g, h.1)
  | inr e ↦ rw e (h.0, All-set P m xs g h.1)
]

All-set_all :
    (P : Match → Type 0) (ps ms : List Match) → All P ps → All P ms → All P (set_all ps ms)
All-set_all P [] ms g h = h
All-set_all P (p ∷ ps) ms g h = All-set_all P ps (set p ms) g.1 (All-set P p ms g.0 h)

-- What a resolution says of the matching entries. Resolved: the entry's id is among them with a name
-- that is the one asked for, and an id is among them only if it is this one. Ambiguous: two different
-- ids are among them.
abbrev pub IsResolutionOf : (String → String) → String → List Match → GroupResolution → Type 0
IsResolutionOf lower expected ps (resolved id name) =
    (str_eq (folded_name lower name) expected ≡ true)
    × ((other : Ident) → exists (has_id other) ps ≡ (id == other))
IsResolutionOf lower expected ps not_found = (other : Ident) → exists (has_id other) ps ≡ false
IsResolutionOf lower expected ps ambiguous =
    (a : Ident) × (b : Ident) × ((b == a) ≡ false)
    × (exists (has_id a) ps ≡ true)
    × (exists (has_id b) ps ≡ true)
IsResolutionOf lower expected ps unavailable = ⊥

matches-IsResolutionOf :
    (lower : String → String) (expected : String) (ps ms : List Match)
    → ((id : Ident) → exists (has_id id) ms ≡ exists (has_id id) ps)
    → AreApart ms
    → All (λ m. has_name lower expected m ≡ true) ms
    → IsResolutionOf lower expected ps (resolution_of ms)
matches-IsResolutionOf lower expected ps [] same a h = λ other. sym (same other)
matches-IsResolutionOf lower expected ps (m ∷ []) same a h =
    (h.0, λ other. sym (same other) ∙ ground arith)
matches-IsResolutionOf lower expected ps (m ∷ n ∷ ms) same a h = (
  m.id,
  n.id,
  ground (arith, a.0),
  sym (same m.id) ∙ ground (arith, (==_iff m.id m.id).1 refl),
  sym (same n.id) ∙ ground (arith, (==_iff n.id n.id).1 refl),
)

pub read-IsResolutionOf :
    (lower : String → String) (expected : String) (is : List ChatItem)
    → IsResolutionOf lower expected
        (matched lower expected is)
        (resolution_of (set_all (matched lower expected is) []))
read-IsResolutionOf lower expected is =
    let ps = matched lower expected is in
    matches-IsResolutionOf lower expected ps (set_all ps []) (λ id. exists-set_all ps [] id)
      (set_all-AreApart ps [] tt)
      (All-set_all (λ m. has_name lower expected m ≡ true) ps [] (matched-All lower expected is) tt)
