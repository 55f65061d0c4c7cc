-- ===== src/Sources/Titles.antt =====
-- A normalized title is normalized already.
use minori.Common.{
  ℕ, ◌≡◌, refl, sym, ap, ◌∙◌, inl, inr, [], ◌∷◌, Bool, true, false, ◌&&◌, not, ◌==◌, ==_iff, &&_iff,
  if◌then◌else◌, arith, Bool-cases,
}
use minori.Common.Text.{is_space}
use minori.Sources.{
  Text, Platform, is_control, collapse, trim_start, is_nil, trim_end, normalize_title,
}

-- No character of a kind.
abbrev pub lacks : (ℕ → Bool) → Text → Bool
lacks p [] = true
lacks p (c ∷ s) = not (p c) && lacks p s

-- White space is one space between two other characters; the second argument says that the last
-- character was one.
abbrev pub is_tidy : Platform → Bool → Text → Bool
unfolding is_space
is_tidy pf after [] = true
is_tidy pf after (c ∷ s) =
    not (is_control pf c)
    && (if is_space c then not after && (c == 32 && is_tidy pf true s) else is_tidy pf false s)

module _ (pf : Platform) (space : pf.is_format 32 ≡ false) where
  collapse-lacks :
      (after : Bool) (s : Text) → lacks (is_control pf) (collapse (is_control pf) after s) ≡ true
  unfolding collapse
  collapse-lacks after [] = refl
  collapse-lacks after (c ∷ s) = elim (Bool-cases (is_control pf c)) [
    | inr e ↦ rw e (rw e (collapse-lacks false s))
    | inl e ↦ elim (Bool-cases after) [
      | inl a ↦ rw (e, a) (collapse-lacks true s)
      | inr a ↦ rw (e, a) (rw space (collapse-lacks true s))
    ]
  ]

  collapse-tidies :
      (after : Bool) (s : Text)
      → lacks (is_control pf) s ≡ true
      → is_tidy pf after (collapse is_space after s) ≡ true
  unfolding collapse is_space
  collapse-tidies after [] h = refl
  collapse-tidies after (c ∷ s) h =
      let (first, rest) = (&&_iff (not (is_control pf c)) _).0 h in
      elim (Bool-cases (is_space c)) [
        | inr e ↦ rw e (rw (first, e) (collapse-tidies false s rest))
        | inl e ↦ elim (Bool-cases after) [
          | inl a ↦ rw (e, a) (collapse-tidies true s rest)
          | inr a ↦ rw (e, a) (rw space (collapse-tidies true s rest))
        ]
      ]

  tidy-lacks :
      (after : Bool) (s : Text) → is_tidy pf after s ≡ true → lacks (is_control pf) s ≡ true
  unfolding is_tidy
  tidy-lacks after [] h = refl
  tidy-lacks after (c ∷ s) h =
      let (first, rest) = (&&_iff (not (is_control pf c)) _).0 h in
      elim (Bool-cases (is_space c)) [
        | inr e ↦ rw first (tidy-lacks false s (rw e at rest))
        | inl e ↦
            let (_, later) = (&&_iff (not after) _).0 (rw e at rest) in
            rw first (tidy-lacks true s ((&&_iff (c == 32) _).0 later).1)
      ]

  tidy-later : (after : Bool) (s : Text) → is_tidy pf after s ≡ true → is_tidy pf false s ≡ true
  unfolding is_tidy
  tidy-later after [] h = refl
  tidy-later after (c ∷ s) h =
      let (first, rest) = (&&_iff (not (is_control pf c)) _).0 h in
      elim (Bool-cases (is_space c)) [
        | inr e ↦ rw (first, e) (rw e at rest)
        | inl e ↦ let (_, later) = (&&_iff (not after) _).0 (rw e at rest) in rw (first, e) later
      ]

  trim_start-tidy :
      (after : Bool) (s : Text) → is_tidy pf after s ≡ true → is_tidy pf false (trim_start s) ≡ true
  unfolding trim_start
  trim_start-tidy after [] h = refl
  trim_start-tidy after (c ∷ s) h = elim (Bool-cases (is_space c)) [
    | inr e ↦ rw e (tidy-later after (c ∷ s) h)
    | inl e ↦
        let (_, rest) = (&&_iff (not (is_control pf c)) _).0 h in
        let (_, later) = (&&_iff (not after) _).0 (rw e at rest) in
        rw e (trim_start-tidy true s ((&&_iff (c == 32) _).0 later).1)
  ]

  trim_end-tidy :
      (after : Bool) (s : Text) → is_tidy pf after s ≡ true → is_tidy pf after (trim_end s) ≡ true
  unfolding trim_end
  trim_end-tidy after [] h = refl
  trim_end-tidy after (c ∷ s) h =
      let (first, rest) = (&&_iff (not (is_control pf c)) _).0 h in
      elim (Bool-cases (is_nil (trim_end s) && is_space c)) [
        | inl e ↦ rw e refl
        | inr e ↦ rw e (elim (Bool-cases (is_space c)) [
          | inr no_space ↦ rw (first, no_space) (trim_end-tidy false s (rw no_space at rest))
          | inl is_one ↦
              let (alone, later) = (&&_iff (not after) _).0 (rw is_one at rest) in
              let (blank, tidy) = (&&_iff (c == 32) _).0 later in
              rw (first, is_one) (rw (alone, blank) (trim_end-tidy true s tidy))
        ])
      ]

-- White space and controls that are not there are not replaced.
collapse-eq_of_lacks :
    (p : ℕ → Bool) (after : Bool) (s : Text) → lacks p s ≡ true → collapse p after s ≡ s
unfolding collapse
collapse-eq_of_lacks p after [] h = refl
collapse-eq_of_lacks p after (c ∷ s) h = elim (Bool-cases (p c)) [
  | inl e ↦ absurd (ground arith)
  | inr e ↦ rw e (ap (λ t. c ∷ t) (collapse-eq_of_lacks p false s (ground arith)))
]

collapse-eq_of_tidy :
    (pf : Platform) (after : Bool) (s : Text)
    → is_tidy pf after s ≡ true
    → collapse is_space after s ≡ s
unfolding collapse is_space
collapse-eq_of_tidy pf after [] h = refl
collapse-eq_of_tidy pf after (c ∷ s) h =
    let (_, rest) = (&&_iff (not (is_control pf c)) _).0 h in
    elim (Bool-cases (is_space c)) [
      | inr e ↦ rw e (ap (λ t. c ∷ t) (collapse-eq_of_tidy pf false s (rw e at rest)))
      | inl e ↦
          let (alone, later) = (&&_iff (not after) _).0 (rw e at rest) in
          let (blank, tidy) = (&&_iff (c == 32) _).0 later in
          let same : 32 ≡ c = sym ((==_iff c 32).0 blank) in
          let first : after ≡ false = ground arith in
          rw (e, first)
            (ap (λ t. 32 ∷ t) (collapse-eq_of_tidy pf true s tidy) ∙ ap (λ x. x ∷ s) same)
    ]

abbrev pub starts_dark : Text → Bool
starts_dark [] = true
starts_dark (c ∷ s) = not (is_space c)

trim_start-starts : (s : Text) → starts_dark (trim_start s) ≡ true
unfolding trim_start
trim_start-starts [] = refl
trim_start-starts (c ∷ s) = elim (Bool-cases (is_space c)) [
  | inl e ↦ rw e (trim_start-starts s)
  | inr e ↦ rw e (rw e refl)
]

trim_end-starts : (s : Text) → starts_dark s ≡ true → starts_dark (trim_end s) ≡ true
unfolding trim_end
trim_end-starts [] h = refl
trim_end-starts (c ∷ s) h = elim (Bool-cases (is_nil (trim_end s) && is_space c)) [
  | inl e ↦ rw e refl
  | inr e ↦ rw e h
]

trim_start-eq : (s : Text) → starts_dark s ≡ true → trim_start s ≡ s
unfolding trim_start
trim_start-eq [] h = refl
trim_start-eq (c ∷ s) h = elim (Bool-cases (is_space c)) [
  | inl e ↦ absurd (ground arith)
  | inr e ↦ rw e refl
]

trim_end-again : (s : Text) → trim_end (trim_end s) ≡ trim_end s
unfolding trim_end
trim_end-again [] = refl
trim_end-again (c ∷ s) = elim (Bool-cases (is_nil (trim_end s) && is_space c)) [
  | inl e ↦ rw e refl
  | inr e ↦ rw e (rw (trim_end-again s) (rw e refl))
]

-- Where the space is no format character, the normalization of a title does nothing to a normalized
-- title.
pub normalize_title-again :
    (pf : Platform) (title : Text)
    → pf.is_format 32 ≡ false
    → normalize_title pf (normalize_title pf title) ≡ normalize_title pf title
unfolding normalize_title
normalize_title-again pf title space =
    let kept = collapse (is_control pf) false title in
    let u = collapse is_space false kept in
    let t = trim_end (trim_start u) in
    let tidy_u : is_tidy pf false u ≡ true =
      collapse-tidies pf space false kept (collapse-lacks pf space false title) in
    let tidy : is_tidy pf false t ≡ true =
      trim_end-tidy pf space false (trim_start u) (trim_start-tidy pf space false u tidy_u) in
    let dark : starts_dark t ≡ true = trim_end-starts (trim_start u) (trim_start-starts u) in
    ap (λ (s : Text). trim_end (trim_start (collapse is_space false s)))
      (collapse-eq_of_lacks (is_control pf) false t (tidy-lacks pf space false t tidy))
    ∙ ap (λ (s : Text). trim_end (trim_start s)) (collapse-eq_of_tidy pf false t tidy)
    ∙ ap trim_end (trim_start-eq t dark)
    ∙ trim_end-again (trim_start u)
