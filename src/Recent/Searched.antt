-- ===== src/Recent/Searched.antt =====
-- Which messages a search returns.
use mathlib.Core.List.{Memᴰ}
use minori.Common.{
  ℕ, ◌-◌, ◌≤◌, ◌<◌, ◌≡◌, refl, sym, ap, ◌∙◌, subst, ◌↔◌, ◌⊎◌, inl, inr, String, List, [], ◌∷◌, map,
  Option, none, some, true, false, ◌&&◌, &&_iff, leb, leb→le, le→leb, is_some, arith, Bool-cases,
  Option-cases, All, length, take, sort_by,
}
use minori.Common.Table.{select, count}
use minori.Common.Sorting.{mem-select, select-mem, mem-sort_by}
use minori.Common.Sorting.Kept.{mem-take, take-eq_self, length-select, length-sort_by, sort_by-mem}
use minori.Common.Text.{codes}
use minori.Domain.{Ident, Time}
use minori.Sources.{Text}
use minori.Recent.{ConversationRow, MessageRow, newer, is_of, is_retained}
use minori.Recent.Search.{
  StoredMessageExcerpt, has_term, content_of, has_terms, is_hit, excerpt_of, add_excerpt, excerpts,
  search_for, search,
}
use minori.Recent.Words.{Words, terms_of-Words}
use minori.Recent.Found.{IsFolding, Contains, has_term-Contains}

-- The message is of the conversation, not older than the date, and its text contains every term.
pub record IsHit (fold : ℕ → ℕ) (key : Ident) (conversations : List ConversationRow) (since : Time)
    (terms : List Text) (r : MessageRow) : Type 0 where
  pub own : is_of key conversations r.conversation_id ≡ true
  pub kept : since ≤ r.created_at
  pub body : String
  pub content : r.content ≡ some body
  pub contained : All (λ t. Contains (map fold t) (map fold (codes body))) terms

module _ (fold : ℕ → ℕ) (f : IsFolding fold) where
  has_terms-All :
      (content : Text) (terms : List Text)
      → (has_terms fold terms (some content) ≡ true)
        ↔ All (λ t. Contains (map fold t) (map fold content)) terms
  has_terms-All content [] = (λ h. tt, λ h. refl)
  has_terms-All content (t ∷ ts) =
      let both = &&_iff (has_term fold (some content) t) (has_terms fold ts (some content)) in
      let here = has_term-Contains fold f content t in
      let later = has_terms-All content ts in
      (λ h. (here.0 (both.0 h).0, later.0 (both.0 h).1), λ h. both.1 (here.1 h.0, later.1 h.1))

  module _ (key : Ident) (conversations : List ConversationRow) (since : Time)
      (terms : List Text) where
    is_hit-IsHit :
        (r : MessageRow)
        → is_hit fold key conversations since terms r ≡ true
        → IsHit fold key conversations since terms r
    is_hit-IsHit r h =
        let (retained, found) =
          (&&_iff (is_retained key conversations since r) (has_terms fold terms (content_of r))).0
            h in
        let (own, rest) =
          (&&_iff (is_of key conversations r.conversation_id)
              (is_some r.content && leb since r.created_at)).0
            retained in
        let (stored, kept) = (&&_iff (is_some r.content) (leb since r.created_at)).0 rest in
        elim (Option-cases r.content) [
          | inl e ↦ absurd (cc)
          | inr (body, e) ↦ record {
            own = own;
            kept = leb→le since r.created_at kept;
            body = body;
            content = e;
            contained = (has_terms-All (codes body) terms).0 (rw e at found);
          }
        ]

    IsHit-is_hit :
        (r : MessageRow)
        → IsHit fold key conversations since terms r
        → is_hit fold key conversations since terms r ≡ true
    IsHit-is_hit r h = rw h.own (
        rw h.content (
          rw (le→leb since r.created_at h.kept)
            ((has_terms-All (codes h.body) terms).1 h.contained)))

module _ (lower : Text → Text) (term : Text) where
  -- The excerpt of a row.
  pub record IsExcerpt (x : StoredMessageExcerpt) (r : MessageRow) : Type 0 where
    pub body : String
    pub content : r.content ≡ some body
    pub same : x ≡ excerpt_of lower term r (codes body)

  abbrev AddedHas : MessageRow → List MessageRow → StoredMessageExcerpt → Option Text → Type 0
  AddedHas r rs x content = Memᴰ x (add_excerpt lower term r content (excerpts lower term rs))

  content_of-none : (r : MessageRow) → r.content ≡ none → content_of r ≡ none
  content_of-none r h = rw h refl

  content_of-some :
      (r : MessageRow) (body : String) → r.content ≡ some body → content_of r ≡ some (codes body)
  content_of-some r body h = rw h refl

  excerpts-mem :
      (rs : List MessageRow) (x : StoredMessageExcerpt)
      → Memᴰ x (excerpts lower term rs)
      → (r : MessageRow) × Memᴰ r rs × IsExcerpt x r
  unfolding excerpts
  excerpts-mem [] x m = elim m [ ]
  excerpts-mem (r ∷ rs) x m = elim (Option-cases r.content) [
    | inl e ↦
        let (r', m', i) = excerpts-mem rs x (subst (AddedHas r rs x) (content_of-none r e) m) in
        (r', Memᴰ.tail m', i)
    | inr (body, e) ↦ elim (subst (AddedHas r rs x) (content_of-some r body e) m) [
      | Memᴰ.head q ↦ (r, Memᴰ.head refl, record { body = body; content = e; same = q })
      | Memᴰ.tail m'' ↦ let (r', m', i) = excerpts-mem rs x m'' in (r', Memᴰ.tail m', i)
    ]
  ]

  mem-excerpts :
      (rs : List MessageRow) (r : MessageRow) (body : String)
      → Memᴰ r rs
      → r.content ≡ some body
      → Memᴰ (excerpt_of lower term r (codes body)) (excerpts lower term rs)
  unfolding excerpts
  mem-excerpts [] r body m h = elim m [ ]
  mem-excerpts (y ∷ ys) r body (Memᴰ.head q) h =
      subst (AddedHas y ys (excerpt_of lower term r (codes body)))
        (sym (content_of-some y body (sym (ap (λ z. z.content) q) ∙ h)))
        (Memᴰ.head (ap (λ z. excerpt_of lower term z (codes body)) q))
  mem-excerpts (y ∷ ys) r body (Memᴰ.tail m) h =
      let x = excerpt_of lower term r (codes body) in
      let later = mem-excerpts ys r body m h in
      elim (Option-cases y.content) [
        | inl e ↦ subst (AddedHas y ys x) (sym (content_of-none y e)) later
        | inr (other, e) ↦
            subst (AddedHas y ys x) (sym (content_of-some y other e)) (Memᴰ.tail later)
      ]

-- The excerpts found are of messages that fulfil the search, and of each of them, unless there are more
-- than its limit.
pub record IsRight (fold : ℕ → ℕ) (lower : Text → Text) (key : Ident)
    (conversations : List ConversationRow) (since : Time) (term : Text) (terms : List Text)
    (limit : ℕ) (rows : List MessageRow) (found : List StoredMessageExcerpt) : Type 0 where
  pub sound :
      (x : StoredMessageExcerpt)
      → Memᴰ x found
      → (r : MessageRow) × Memᴰ r rows
        × IsExcerpt lower term x r
        × IsHit fold key conversations since (term ∷ terms) r
  pub complete :
      (r : MessageRow)
      → Memᴰ r rows
      → IsHit fold key conversations since (term ∷ terms) r
      → ((x : StoredMessageExcerpt) × Memᴰ x found × IsExcerpt lower term x r)
        ⊎ limit < count (is_hit fold key conversations since (term ∷ terms)) rows

leb_false→lt : (a b : ℕ) → leb a b ≡ false → b < a
leb_false→lt a b h = ground arith

search_for-IsRight :
    (fold : ℕ → ℕ) (f : IsFolding fold) (lower : Text → Text) (since : Time) (key : Ident)
    (term : Text) (terms : List Text) (limit : ℕ) (conversations : List ConversationRow)
    (rows : List MessageRow)
    → IsRight fold lower key conversations since term terms limit rows
        (search_for fold lower since key (term ∷ terms) limit conversations rows)
unfolding search_for
search_for-IsRight fold f lower since key term terms limit conversations rows =
    let hit = is_hit fold key conversations since (term ∷ terms) in
    let sorted = sort_by newer (select hit rows) in
    record {
      sound = λ x m.
          let (r, taken, i) = excerpts-mem lower term (take limit sorted) x m in
          let selected = mem-sort_by newer (select hit rows) r (mem-take limit sorted r taken) in
          let (entry, h) = mem-select hit rows r selected in
          (r, entry, i, is_hit-IsHit fold f key conversations since (term ∷ terms) r h);
      complete = λ r m h.
          let selected =
            select-mem hit rows r m
              (IsHit-is_hit fold f key conversations since (term ∷ terms) r h) in
          let ordered = sort_by-mem newer (select hit rows) r selected in
          let size : length sorted ≡ count hit rows =
            length-sort_by newer (select hit rows) ∙ length-select hit rows in
          elim (Bool-cases (leb (count hit rows) limit)) [
            | inl few ↦
                let all =
                  take-eq_self limit sorted
                    (subst (λ n. n ≤ limit) (sym size) (leb→le (count hit rows) limit few)) in
                inl (
                  excerpt_of lower term r (codes h.body),
                  mem-excerpts lower term (take limit sorted) r h.body
                      (subst (Memᴰ r) (sym all) ordered) h.content,
                  record { body = h.body; content = h.content; same = refl },
                )
            | inr many ↦ inr (leb_false→lt (count hit rows) limit many)
          ];
    }

-- A search for a text with some words returns only excerpts of stored messages of the conversation that
-- are within the time of retention and contain each of the first ten words, without regard to case;
-- and it returns an excerpt of every such message, unless there are more of them than the limit of the
-- search. The words are what is left between white space, at the ends of the text too. That a word has
-- characters with a meaning in patterns makes no difference. The condition is how the database ignores
-- case.
pub search-IsRight :
    (fold : ℕ → ℕ) (f : IsFolding fold) (lower : Text → Text) (retention_ms : ℕ) (now : Time)
    (key : Ident) (query word : Text) (words : List Text) (limit : ℕ)
    (conversations : List ConversationRow) (rows : List MessageRow)
    → Words query (word ∷ words)
    → IsRight fold lower key conversations
        (now - retention_ms)
        word
        (take 9 words)
        limit
        rows
        (search fold lower retention_ms now key query limit conversations rows)
unfolding search
search-IsRight fold f lower retention_ms now key query word words limit conversations rows h =
    subst
      (λ ts.
        IsRight fold lower key conversations (now - retention_ms) word (take 9 words) limit rows
          (search_for fold lower (now - retention_ms) key ts limit conversations rows))
      (sym (terms_of-Words query (word ∷ words) h))
      (search_for-IsRight fold f lower (now - retention_ms) key word (take 9 words) limit
        conversations rows)
