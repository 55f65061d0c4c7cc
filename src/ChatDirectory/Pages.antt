-- ===== src/ChatDirectory/Pages.antt =====
-- What a resolution says of the groups on the platform's pages, whatever the code remembers of them.
use minori.Common.{
  ◌≡◌, ◌⊎◌, subst, refl, sym, ap, ◌∙◌, inl, inr, String, List, [], ◌∷◌, ◌++◌, Option, none, some,
  true, false, Bool-cases,
}
use minori.Common.Text.{trim, is_empty}
use minori.ChatDirectory.{
  ChatItem, GroupResolution, resolved, not_found, ambiguous, unavailable, PageAnswer, page,
  page_failed, page_aborted, folded_name, matched, set_all, resolution_of, searched, search,
  resolve_exact_group,
}
use minori.ChatDirectory.Exact.{read-IsResolutionOf, matched-append, set_all-append}
use minori.ChatDirectory.Named.{IsRight, expected, IsResolutionOf-IsRight}

-- The items of the pages up to the last one, which has no token of a next page, or an empty one.
pub data Read : List PageAnswer → List ChatItem → Type 0 where
  last : (items : List ChatItem) (later : List PageAnswer) → Read (page items none ∷ later) items
  last_empty :
      (items : List ChatItem) (later : List PageAnswer) → Read (page items (some "") ∷ later) items
  more :
      (items rest : List ChatItem) (token : String) (later : List PageAnswer)
      → is_empty token ≡ false
      → Read later rest
      → Read (page items (some token) ∷ later) (items ++ rest)

-- A page up to the last one has failed.
pub data Fails : List PageAnswer → Type 0 where
  here : (later : List PageAnswer) → Fails (page_failed ∷ later)
  after :
      (items : List ChatItem) (token : String) (later : List PageAnswer)
      → is_empty token ≡ false
      → Fails later
      → Fails (page items (some token) ∷ later)

abbrev pub IsResolved : (String → String) → String → List PageAnswer → GroupResolution → Type 0
IsResolved lower name answers unavailable = Fails answers
IsResolved lower name answers r =
    (items : List ChatItem) × Read answers items × IsRight lower name items r

append_assoc : {A : Type 0} → (xs ys zs : List A) → (xs ++ ys) ++ zs ≡ xs ++ (ys ++ zs)
append_assoc [] ys zs = refl
append_assoc (x ∷ xs) ys zs = ap (λ r. x ∷ r) (append_assoc xs ys zs)

module _ (lower : String → String) (name : String) where
  emptied : (token : String) → is_empty token ≡ true → token ≡ ""
  emptied String.[] h = refl
  emptied (String.◌∷◌ c s) h = absurd (cc)

  abbrev Found : List ChatItem → List PageAnswer → GroupResolution → Type 0
  Found before answers r =
      (items : List ChatItem) × Read answers items × IsRight lower name (before ++ items) r

  abbrev Ends : List ChatItem → List PageAnswer → GroupResolution → Type 0
  Ends before answers r = ((r ≡ unavailable) × Fails answers) ⊎ Found before answers r

  -- What was set after one more page.
  page_set :
      (before items : List ChatItem)
      → set_all
          (matched lower (expected lower name) items)
          (set_all (matched lower (expected lower name) before) [])
        ≡ set_all (matched lower (expected lower name) (before ++ items)) []
  page_set before items = sym (
      ap (λ ps. set_all ps []) (matched-append lower (expected lower name) before items)
      ∙ set_all-append (matched lower (expected lower name) before)
          (matched lower (expected lower name) items) [])

  searched-inj : (r s : GroupResolution) → searched r ≡ searched s → r ≡ s
  searched-inj r s h = cc

  last_page :
      (items before : List ChatItem) (later : List PageAnswer) (r : GroupResolution)
      → Read (page items none ∷ later) items
      → searched (
          resolution_of (
            set_all
              (matched lower (expected lower name) items)
              (set_all (matched lower (expected lower name) before) [])))
        ≡ searched r
      → IsRight lower name (before ++ items) r
  last_page items before later r read h =
      subst (IsRight lower name (before ++ items))
        (ap resolution_of (sym (page_set before items)) ∙ searched-inj _ r h)
        (IsResolutionOf-IsRight lower name (before ++ items) _
          (read-IsResolutionOf lower (expected lower name) (before ++ items)))

  next_page :
      (items before : List ChatItem) (token : String) (later : List PageAnswer)
      (r : GroupResolution)
      → is_empty token ≡ false
      → Ends (before ++ items) later r
      → Ends before (page items (some token) ∷ later) r
  next_page items before token later r e (inl (u, f)) = inl (u, Fails.after items token later e f)
  next_page items before token later r e (inr (rest, read, right)) = inr (
    items ++ rest,
    Read.more items rest token later e read,
    subst (λ is. IsRight lower name is r) (append_assoc before items rest) right,
  )

  page_read :
      (items : List ChatItem) (token : Option String) (later : List PageAnswer)
      (before : List ChatItem) (r : GroupResolution)
      → search lower
          (expected lower name)
          (page items token ∷ later)
          (set_all (matched lower (expected lower name) before) [])
        ≡ searched r
      → (search lower
              (expected lower name)
              later
              (set_all (matched lower (expected lower name) (before ++ items)) [])
            ≡ searched r
          → Ends (before ++ items) later r)
      → Ends before (page items token ∷ later) r
  unfolding search
  page_read items none later before r h ih =
      let read = Read.last items later in inr (items, read, last_page items before later r read h)
  page_read items (some token) later before r h ih = elim (Bool-cases (is_empty token)) [
    | inl e ↦
        subst (λ t. Ends before (page items (some t) ∷ later) r) (sym (emptied token e))
          (inr (
            items,
            Read.last_empty items later,
            last_page items before later r (Read.last items later) (rw e at h),
          ))
    | inr e ↦ next_page items before token later r e (
        ih (
          subst (λ ms. search lower (expected lower name) later ms ≡ searched r)
            (page_set before items) (rw e at h)))
  ]

  search-Ends :
      (answers : List PageAnswer) (before : List ChatItem) (r : GroupResolution)
      → search lower
          (expected lower name)
          answers
          (set_all (matched lower (expected lower name) before) [])
        ≡ searched r
      → Ends before answers r
  unfolding search
  search-Ends [] before r h = absurd (cc)
  search-Ends (page_failed ∷ later) before r h = inl (cc, Fails.here later)
  search-Ends (page_aborted ∷ later) before r h = absurd (cc)
  search-Ends (page items token ∷ later) before r h =
      page_read items token later before r h (λ k. search-Ends later (before ++ items) r k)

  Ends-IsResolved :
      (answers : List PageAnswer) (r : GroupResolution)
      → Ends [] answers r
      → IsResolved lower name answers r
  Ends-IsResolved answers unavailable (inl h) = h.1
  Ends-IsResolved answers unavailable (inr (items, read, right)) = absurd right
  Ends-IsResolved answers (resolved id shown) (inl h) = absurd (cc)
  Ends-IsResolved answers (resolved id shown) (inr h) = h
  Ends-IsResolved answers not_found (inl h) = absurd (cc)
  Ends-IsResolved answers not_found (inr h) = h
  Ends-IsResolved answers ambiguous (inl h) = absurd (cc)
  Ends-IsResolved answers ambiguous (inr h) = h

-- If a name is not blank and its resolution ends, then it is unavailable only if a page up to the
-- last one has failed. Otherwise the last page, the first one without a token of a next page or with
-- an empty one, was read; and of the items of all pages up to it, groups and groups of topics are
-- compared by their names without regard to case and outer spaces: the resolution gives the id and
-- a name of a group if no other id has the name, it says that none is found if there is none, and
-- it is ambiguous only if two different ids have the name.
pub resolution-IsResolved :
    (lower : String → String) (name : String) (answers : List PageAnswer) (r : GroupResolution)
    → is_empty (lower (trim name)) ≡ false
    → resolve_exact_group lower name answers ≡ searched r
    → IsResolved lower name answers r
unfolding resolve_exact_group folded_name
resolution-IsResolved lower name answers r e h =
    Ends-IsResolved lower name answers r (search-Ends lower name answers [] r (rw e at h))
