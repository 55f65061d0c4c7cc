-- ===== src/Recent/Search.antt =====
-- The search in a conversation: `search` of src/storage/conversation-store.ts. A text is the list of its
-- code points. `fold` is how the database's `ilike` ignores the case of a character, `lower` is the
-- platform's `toLocaleLowerCase`.
use minori.Common.{
  ℕ, suc, ◌+◌, ◌-◌, ◌/◌, ◌%◌, List, [], ◌∷◌, ◌++◌, map, Option, none, some, Bool, true, false, ◌&&◌,
  ◌||◌, not, ltb, leb, ◌==◌, if◌then◌else◌, length, take, drop, sort_by,
}
use minori.Common.Table.{select}
use minori.Common.Text.{codes, codes_start_with, is_space}
use minori.Sources.{Text, is_nil, trim_start, trim_end}
use minori.Domain.{Ident, Time}
use minori.Recent.{Role, ConversationRow, MessageRow, newer, is_retained}

pub record StoredMessageExcerpt : Type 0 where
  pub message_id : Ident
  pub role : Role
  pub created_at : Time
  pub excerpt : Text

abbrev pub is_special : ℕ → Bool
is_special c = c == b'\\' || (c == b'%' || c == b'_')

-- `replace(/[\\%_]/g, (character) => `\\${character}`)`
abbrev pub escape_like : Text → Text
escape_like [] = []
escape_like (c ∷ s) =
    let rest = escape_like s in if is_special c then b'\\' ∷ c ∷ rest else c ∷ rest

abbrev pub pattern_of : Text → Text
pattern_of term = b'%' ∷ escape_like term ++ b'%' ∷ []

-- A pattern of the database's `like`, with the escape character read: a backslash before a character
-- stands for the character. The pattern of a term does not end with the escape character.
pub data Piece : Type 0 where
  any_text any_character : Piece
  literal : ℕ → Piece

abbrev pub piece_of : ℕ → Piece
piece_of c = if c == b'%' then any_text else if c == b'_' then any_character else literal c

abbrev pub pieces : Bool → Text → List Piece
pieces escaped [] = []
pieces true (c ∷ s) = literal c ∷ pieces false s
pieces false (c ∷ s) =
    let plain = piece_of c ∷ pieces false s in
    let after_escape = pieces true s in if c == b'\\' then after_escape else plain

abbrev pub some_rest : (Text → Bool) → Text → Bool
some_rest p [] = p []
some_rest p (c ∷ s) = p (c ∷ s) || some_rest p s

abbrev pub like : List Piece → Text → Bool
like [] [] = true
like [] (c ∷ s) = false
like (any_text ∷ ps) s = some_rest (like ps) s
like (any_character ∷ ps) [] = false
like (any_character ∷ ps) (c ∷ s) = like ps s
like (literal x ∷ ps) [] = false
like (literal x ∷ ps) (c ∷ s) = x == c && like ps s

unfoldable pub ilike : (ℕ → ℕ) → Text → Text → Bool
ilike fold content pattern = like (pieces false (map fold pattern)) (map fold content)

-- A message without a content fulfils no condition.
abbrev pub has_term : (ℕ → ℕ) → Option Text → Text → Bool
unfolding ilike
has_term fold none term = false
has_term fold (some content) term = ilike fold content (pattern_of term)

abbrev pub content_of : MessageRow → Option Text
content_of r = elim r.content [ none ↦ none | some s ↦ some (codes s) ]

abbrev pub has_terms : (ℕ → ℕ) → List Text → Option Text → Bool
has_terms fold [] content = true
has_terms fold (term ∷ terms) content = has_term fold content term && has_terms fold terms content

abbrev pub is_hit : (ℕ → ℕ) → Ident → List ConversationRow → Time → List Text → MessageRow → Bool
is_hit fold key conversations since terms r =
    is_retained key conversations since r && has_terms fold terms (content_of r)

-- `split(/\s+/u).filter(Boolean)`: the words between white space, the empty ones left out.
abbrev pub with_first : ℕ → List Text → List Text
with_first c [] = (c ∷ []) ∷ []
with_first c (w ∷ ws) = (c ∷ w) ∷ ws

unfoldable pub split_at_spaces : Text → List Text
unfolding is_space
split_at_spaces [] = [] ∷ []
split_at_spaces (c ∷ s) =
    let rest = split_at_spaces s in if is_space c then [] ∷ rest else with_first c rest

unfoldable pub terms_of : Text → List Text
unfolding split_at_spaces trim_start trim_end
terms_of query =
    take 10 (select (λ w. not (is_nil w)) (split_at_spaces (trim_end (trim_start query))))

-- The code units of a text, which its `length` and `slice` count.
abbrev pub units : Text → Text
units [] = []
units (c ∷ s) =
    let rest = units s in
    if ltb c 65_536
    then c ∷ rest
    else (55_296 + (c - 65_536) / 1_024) ∷ (56_320 + (c - 65_536) % 1_024) ∷ rest

-- `indexOf`, where `none` is -1.
abbrev pub one_later : Option ℕ → Option ℕ
one_later none = none
one_later (some n) = some (suc n)

abbrev pub index_of : Text → Text → Option ℕ
index_of part [] = if is_nil part then some 0 else none
index_of part (c ∷ s) =
    let later = one_later (index_of part s) in
    if codes_start_with part (c ∷ s) then some 0 else later

abbrev pub excerpt_start : Option ℕ → ℕ
excerpt_start none = 0
excerpt_start (some match_at) = match_at - 166

abbrev pub ellipsis_if : Bool → Text
ellipsis_if cut = if cut then 8_230 ∷ [] else []

abbrev pub excerpt_length : ℕ
excerpt_length = 500

-- `excerptAroundMatch`, on code units.
unfoldable pub excerpt_around_match : (Text → Text) → Text → Text → Text
excerpt_around_match lower content query =
    let start = excerpt_start (index_of (lower query) (lower content)) in
    if leb (length content) excerpt_length
    then content
    else ellipsis_if (ltb 0 start)
      ++ take excerpt_length (drop start content)
      ++ ellipsis_if (ltb (start + excerpt_length) (length content))

abbrev pub excerpt_of : (Text → Text) → Text → MessageRow → Text → StoredMessageExcerpt
unfolding excerpt_around_match
excerpt_of lower term r content = record {
  message_id = r.message_id;
  role = r.role;
  created_at = r.created_at;
  excerpt = excerpt_around_match lower (units content) (units term);
}

-- A row without a content gives no excerpt.
abbrev pub add_excerpt :
    (Text → Text)
    → Text
    → MessageRow
    → Option Text
    → List StoredMessageExcerpt
    → List StoredMessageExcerpt
add_excerpt lower term r none rest = rest
add_excerpt lower term r (some content) rest = excerpt_of lower term r content ∷ rest

unfoldable pub excerpts : (Text → Text) → Text → List MessageRow → List StoredMessageExcerpt
excerpts lower term [] = []
excerpts lower term (r ∷ rs) = add_excerpt lower term r (content_of r) (excerpts lower term rs)

unfoldable pub search_for :
    (ℕ → ℕ)
    → (Text → Text)
    → Time
    → Ident
    → List Text
    → ℕ
    → List ConversationRow
    → List MessageRow
    → List StoredMessageExcerpt
unfolding excerpts
search_for fold lower since key [] limit conversations rows = []
search_for fold lower since key (term ∷ terms) limit conversations rows =
    excerpts lower term (
      take limit (sort_by newer (select (is_hit fold key conversations since (term ∷ terms)) rows)))

-- With no term, or a limit of none, nothing is found.
unfoldable pub search :
    (ℕ → ℕ)
    → (Text → Text)
    → ℕ
    → Time
    → Ident
    → Text
    → ℕ
    → List ConversationRow
    → List MessageRow
    → List StoredMessageExcerpt
unfolding search_for terms_of
search fold lower retention_ms now key query limit conversations rows =
    search_for fold lower (now - retention_ms) key (terms_of query) limit conversations rows
