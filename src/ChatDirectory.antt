-- ===== src/ChatDirectory.antt =====
-- The group with a name, as the target of a scheduled task: `FeishuChatDirectory.resolveExactGroup` of
-- src/feishu/chat-directory.ts. The platform's pages are given by a list of answers.
pub mod Exact
pub mod Named
pub mod Pages
pub mod Tests
use package.text.Mathlib.Text.{◌==◌ as str_eq}
use minori.Common.{
  String, List, [], ◌∷◌, ◌++◌, Option, none, some, Bool, true, false, ◌&&◌, ◌==◌, if◌then◌else◌,
}
use minori.Common.Table.{exists}
use minori.Common.Text.{trim, is_empty}
use minori.Domain.{Ident}

pub data ChatMode : Type 0 where
  group_mode topic_mode other_mode : ChatMode

pub record ChatItem : Type 0 where
  pub chat_mode : ChatMode
  pub chat_id : Option Ident
  pub name : Option String

pub data GroupResolution : Type 0 where
  resolved : Ident → String → GroupResolution
  not_found ambiguous unavailable : GroupResolution

-- What a request for a page comes to: a page with the token of the next one, if there is more; an
-- error, of the request or by its code; or the signal is aborted before it or meanwhile.
pub data PageAnswer : Type 0 where
  page : List ChatItem → Option String → PageAnswer
  page_failed page_aborted : PageAnswer

-- An entry of `matches`.
pub record Match : Type 0 where
  pub id : Ident
  pub name : String

abbrev pub is_group_like : ChatMode → Bool
is_group_like group_mode = true
is_group_like topic_mode = true
is_group_like other_mode = false

-- `lower` is `toLocaleLowerCase`.
unfoldable pub folded_name : (String → String) → String → String
unfolding trim
folded_name lower name = lower (trim name)

unfoldable pub match_of :
    (String → String) → String → ChatMode → Option Ident → Option String → Option Match
unfolding folded_name
match_of lower expected mode (some id) (some name) =
    if is_group_like mode && str_eq (folded_name lower name) expected
    then some (record { id = id; name = name })
    else none
match_of lower expected mode id name = none

abbrev pub pushed : Option Match → List Match → List Match
pushed none ms = ms
pushed (some m) ms = m ∷ ms

-- The items that are set in `matches`, in their order.
unfoldable pub matched : (String → String) → String → List ChatItem → List Match
unfolding match_of
matched lower expected [] = []
matched lower expected (i ∷ is) =
    pushed (match_of lower expected i.chat_mode i.chat_id i.name) (matched lower expected is)

-- `matches.set(id, name)`
abbrev pub set : Match → List Match → List Match
set m [] = m ∷ []
set m (x ∷ xs) = let rest = set m xs in if x.id == m.id then m ∷ xs else x ∷ rest

abbrev pub set_all : List Match → List Match → List Match
set_all [] ms = ms
set_all (p ∷ ps) ms = set_all ps (set p ms)

abbrev pub resolution_of : List Match → GroupResolution
resolution_of [] = not_found
resolution_of (m ∷ []) = resolved m.id m.name
resolution_of (m ∷ n ∷ ms) = ambiguous

-- `if (pageToken)`: an empty token ends the loop as a missing one does.
abbrev pub goes_on : Option String → Bool
goes_on none = false
goes_on (some token) = if is_empty token then false else true

pub data Search : Type 0 where
  searched : GroupResolution → Search
  search_aborted search_waits : Search

-- The loop over the pages: without a further answer it waits.
unfoldable pub search : (String → String) → String → List PageAnswer → List Match → Search
unfolding matched
search lower expected [] ms = search_waits
search lower expected (page_failed ∷ later) ms = searched unavailable
search lower expected (page_aborted ∷ later) ms = search_aborted
search lower expected (page items token ∷ later) ms =
    let now = set_all (matched lower expected items) ms in
    let rest = search lower expected later now in
    if goes_on token then rest else searched (resolution_of now)

unfoldable pub resolve_exact_group : (String → String) → String → List PageAnswer → Search
unfolding search folded_name
resolve_exact_group lower name answers =
    let expected = folded_name lower name in
    if is_empty expected then searched not_found else search lower expected answers []
