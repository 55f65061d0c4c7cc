-- ===== src/TeamContext/Text.antt =====
-- The texts of the team's context: normalization, the replacement of one passage, and what a
-- mechanical cleanup may not change, of src/team-context/source.ts.
use Prim.Native.Char.{Char, code, nul}
use minori.Common.{
  ℕ, zero, suc, ◌-◌, String, List, [], ◌∷◌, Option, none, some, Bool, false, ◌&&◌, ◌||◌, not, leb,
  ◌==◌, if◌then◌else◌,
}
use minori.Common.Text.{
  decimal, is_empty, size, append, trim, starts_with, includes, drop_chars, join,
}
use minori.Content.{distinct}

abbrev pub is_blank : ℕ → Bool
is_blank n = n == 9 || n == 32

-- `replace(/\r\n?/gu, '\n')`; the first argument says that the last character was a carriage return.
abbrev pub newlines : Bool → String → String
newlines after String.[] = ""
newlines after (String.◌∷◌ c s) =
    let is_return = code c == 13 in
    let rest = newlines is_return s in
    if is_return
    then append "\n" rest
    else if after && code c == 10
    then rest
    else String.◌∷◌ c rest

-- The line without the blanks at its end, `replace(/[ \t]+$/gu, '')`.
abbrev pub strip_end : String → String
strip_end String.[] = ""
strip_end (String.◌∷◌ c s) =
    let rest = strip_end s in if is_empty rest && is_blank (code c) then "" else String.◌∷◌ c rest

-- `split('\n')`
abbrev pub add_char : Char → List String → List String
add_char c [] = String.◌∷◌ c "" ∷ []
add_char c (l ∷ ls) = String.◌∷◌ c l ∷ ls

abbrev pub lines : String → List String
lines String.[] = "" ∷ []
lines (String.◌∷◌ c s) = let rest = lines s in if code c == 10 then "" ∷ rest else add_char c rest

abbrev pub strip_ends : List String → List String
strip_ends [] = []
strip_ends (l ∷ ls) = strip_end l ∷ strip_ends ls

unfoldable pub normalize_team_context : String → String
unfolding trim
normalize_team_context markdown =
    let normalized = trim (join "\n" (strip_ends (lines (newlines false markdown)))) in
    if is_empty normalized then "" else append normalized "\n"

-- The parts before and after the first occurrence.
abbrev pub prepend : Char → Option (String × String) → Option (String × String)
prepend c none = none
prepend c (some (before, after)) = some (String.◌∷◌ c before, after)

abbrev pub split_at_first : String → String → Option (String × String)
split_at_first pattern String.[] = if is_empty pattern then some ("", "") else none
split_at_first pattern (String.◌∷◌ c s) =
    let rest = prepend c (split_at_first pattern s) in
    if starts_with pattern (String.◌∷◌ c s)
    then some ("", drop_chars (size pattern) (String.◌∷◌ c s))
    else rest

unfoldable pub replaced : String → String → Option (String × String) → Option String
replaced pattern replacement none = none
replaced pattern replacement (some (before, after)) =
    if includes pattern after then none else some (append before (append replacement after))

-- `none` is the `KnowledgeWriteConflict`.
unfoldable pub replace_exactly_once : String → String → String → Option String
unfolding replaced
replace_exactly_once content pattern replacement =
    replaced pattern replacement (split_at_first pattern content)

-- The number of `#` at the start, and the rest.
abbrev pub hashes : String → ℕ
hashes String.[] = 0
hashes (String.◌∷◌ c s) = let rest = hashes s in if code c == b'#' then suc rest else 0

abbrev pub blanks : String → ℕ
blanks String.[] = 0
blanks (String.◌∷◌ c s) = let rest = blanks s in if is_blank (code c) then suc rest else 0

-- `.` does not match the separators of lines and paragraphs.
abbrev pub has_separator : String → Bool
has_separator String.[] = false
has_separator (String.◌∷◌ c s) = code c == 8232 || (code c == 8233 || has_separator s)

-- `/^(#{1,6})[ \t]+(.+)$/u` on a line that has no blank at its end.
unfoldable pub heading : String → Option (ℕ × String)
unfolding trim
heading line =
    let level = hashes line in
    let rest = drop_chars level line in
    let title = drop_chars (blanks rest) rest in
    if leb 1 level
      && (leb level 6
          && (leb 1 (blanks rest) && (not (is_empty title) && not (has_separator title))))
    then some (level, trim title)
    else none

abbrev pub nul_text : String
nul_text = String.◌∷◌ nul ""

-- `headings.length = level - 1; headings[level - 1] = title`
abbrev pub set_heading : ℕ → String → List String → List String
set_heading zero title hs = title ∷ []
set_heading (suc n) title [] = "" ∷ set_heading n title []
set_heading (suc n) title (h ∷ hs) = h ∷ set_heading n title hs

abbrev pub next_headings : Option (ℕ × String) → List String → List String
next_headings none headings = headings
next_headings (some (level, title)) headings = set_heading (level - 1) title headings

abbrev pub entry_text : Option (ℕ × String) → List String → String → String
entry_text none headings line =
    append "content:" (append (join nul_text headings) (append ":" line))
entry_text (some (level, title)) headings line =
    append "heading:" (append (decimal level) (append ":" (join nul_text headings)))

unfoldable pub entries : List String → List String → List String
unfolding trim heading
entries headings [] = []
entries headings (raw ∷ raws) =
    let line = strip_end raw in
    let left_out = is_empty (trim line) in
    let found = heading line in
    let later = if left_out then headings else next_headings found headings in
    let rest = entries later raws in if left_out then rest else entry_text found later line ∷ rest

unfoldable pub mechanical_sequence : String → List String
unfolding entries
mechanical_sequence content = distinct [] (entries [] (lines (newlines false content)))
