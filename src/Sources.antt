-- ===== src/Sources.antt =====
-- The sources that an agent run has read, and their list under its reply: `SourceRegistry` of
-- src/agent/sources.ts and src/worker/source-format.ts. A text is the list of its code points.
pub mod Registry
pub mod Titles
pub mod Cited
pub mod Tests
use minori.Common.{
  ℕ, zero, suc, ◌+◌, String, List, [], ◌∷◌, ◌++◌, reverse, map, Option, none, some, Bool, true,
  false, ◌&&◌, ◌||◌, not, leb, ◌==◌, if◌then◌else◌, length,
}
use minori.Common.Table.{exists, find}
use minori.Common.Text.{codes, codes_eq, decimal, is_space, is_between}

abbrev pub Text : Type 0
Text = List ℕ

-- `new URL(text)`: whether its protocol is `http:` or `https:`, and its `href`.
pub record Location : Type 0 where
  pub is_web : Bool
  pub href : Text

-- The parser of URLs, and the characters of Unicode's category `Cf`.
pub record Platform : Type 0 where
  pub parse_url : Text → Option Location
  pub is_format : ℕ → Bool

pub record Identity : Type 0 where
  pub title : Text
  pub url : Text

pub record AgentSource : Type 0 where
  pub id : ℕ
  pub title : Text
  pub url : Text

-- `[\p{Cc}\p{Cf}\p{Zl}\p{Zp}]`
abbrev pub is_control : Platform → ℕ → Bool
is_control pf c = leb c 31 || (is_between 127 159 c || (pf.is_format c || is_between 8232 8233 c))

-- `replace(/[...]+/gu, ' ')`; the first argument says that the last character was one of them.
unfoldable pub collapse : (ℕ → Bool) → Bool → Text → Text
collapse p after [] = []
collapse p after (c ∷ s) =
    let hit = collapse p true s in
    let other = collapse p false s in if p c then (if after then hit else 32 ∷ hit) else c ∷ other

unfoldable pub trim_start : Text → Text
unfolding is_space
trim_start [] = []
trim_start (c ∷ s) = let rest = trim_start s in if is_space c then rest else c ∷ s

abbrev pub is_nil : Text → Bool
is_nil [] = true
is_nil (c ∷ s) = false

unfoldable pub trim_end : Text → Text
unfolding is_space
trim_end [] = []
trim_end (c ∷ s) = let rest = trim_end s in if is_nil rest && is_space c then [] else c ∷ rest

unfoldable pub normalize_title : Platform → Text → Text
unfolding collapse trim_start trim_end is_space
normalize_title pf title =
    trim_end (trim_start (collapse is_space false (collapse (is_control pf) false title)))

-- `/[\u0000-\u0020\u007f]/u`
abbrev pub has_control : Text → Bool
has_control s = exists (λ c. leb c 32 || c == 127) s

unfoldable pub identity_of : Platform → Text → Option Location → Option Identity
unfolding normalize_title
identity_of pf title none = none
identity_of pf title (some l) =
    let normalized = normalize_title pf title in
    if not l.is_web
    then none
    else if is_nil normalized
    then none
    else some (record { title = normalized; url = l.href })

unfoldable pub normalize_source_identity : Platform → Text → Text → Option Identity
unfolding identity_of
normalize_source_identity pf title url =
    if has_control url then none else identity_of pf title (pf.parse_url url)

-- `Number.MAX_SAFE_INTEGER`
abbrev pub max_safe_integer : ℕ
max_safe_integer = 9_007_199_254_740_991

abbrev pub numbered : ℕ → Option Identity → Option AgentSource
numbered id none = none
numbered id (some i) = some (record { id = id; title = i.title; url = i.url })

unfoldable pub normalize_agent_source : Platform → AgentSource → Option AgentSource
unfolding normalize_source_identity
normalize_agent_source pf s =
    if leb s.id max_safe_integer && leb 1 s.id
    then numbered s.id (normalize_source_identity pf s.title s.url)
    else none

-- The map by URL has what the list has.
unfoldable pub register_found :
    List AgentSource → Identity → Option AgentSource → List AgentSource × Option AgentSource
register_found sources i (some existing) = (sources, some existing)
register_found sources i none =
    let source : AgentSource = record { id = length sources + 1; title = i.title; url = i.url } in
    (sources ++ source ∷ [], some source)

unfoldable pub register_identity :
    List AgentSource → Option Identity → List AgentSource × Option AgentSource
unfolding register_found
register_identity sources none = (sources, none)
register_identity sources (some i) =
    register_found sources i (find (λ s. codes_eq i.url s.url) sources)

-- `none` is the error `invalid_source_metadata`.
unfoldable pub register :
    Platform → Identity → List AgentSource → List AgentSource × Option AgentSource
unfolding register_identity normalize_source_identity
register pf input sources =
    register_identity sources (normalize_source_identity pf input.title input.url)

-- The registry after the calls of `register` of a run.
unfoldable pub register_all : Platform → List Identity → List AgentSource → List AgentSource
unfolding register
register_all pf [] sources = sources
register_all pf (i ∷ is) sources = register_all pf is (register pf i sources).0

-- The loop of `formatAgentReply`.
unfoldable pub listed_next : List Text → Option AgentSource → Option AgentSource
listed_next seen none = none
listed_next seen (some s) = if exists (codes_eq s.url) seen then none else some s

abbrev pub seen_after : List Text → Option AgentSource → List Text
seen_after seen none = seen
seen_after seen (some s) = s.url ∷ seen

abbrev pub pushed : Option AgentSource → List AgentSource → List AgentSource
pushed none ss = ss
pushed (some s) ss = s ∷ ss

unfoldable pub listed : Platform → List Text → List AgentSource → List AgentSource
unfolding listed_next normalize_agent_source
listed pf seen [] = []
listed pf seen (raw ∷ raws) =
    let next = listed_next seen (normalize_agent_source pf raw) in
    pushed next (listed pf (seen_after seen next) raws)

abbrev pub source_line : ℕ → AgentSource → Text
source_line n s = codes "[" ++ codes (decimal n) ++ codes "] " ++ s.title ++ codes " — " ++ s.url

abbrev pub lines_from : ℕ → List AgentSource → List Text
lines_from n [] = []
lines_from n (s ∷ ss) = source_line n s ∷ lines_from (suc n) ss

abbrev pub join_lines : List Text → Text
join_lines [] = []
join_lines (l ∷ []) = l
join_lines (l ∷ m ∷ ls) = l ++ 10 ∷ join_lines (m ∷ ls)

abbrev pub with_lines : Text → List Text → Text
with_lines text [] = text
with_lines text (l ∷ ls) = text ++ codes "\n\nSources:\n" ++ join_lines (l ∷ ls)

unfoldable pub format_agent_reply : Platform → Text → List AgentSource → Text
unfolding listed
format_agent_reply pf text sources = with_lines text (lines_from 1 (listed pf [] sources))
