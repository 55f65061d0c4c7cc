-- ===== src/ChatDirectory/Tests.antt =====
-- Two pages with three groups, of which one has the name.
use minori.Common.{◌≡◌, refl, String, List, [], ◌∷◌, none, some}
use minori.Common.Text.{trim, trim_start, trim_end, is_space}
use minori.ChatDirectory.{
  ChatItem, group_mode, topic_mode, other_mode, PageAnswer, page, page_failed, resolved, ambiguous,
  unavailable, searched, folded_name, match_of, matched, search, resolve_exact_group,
}
use minori.ChatDirectory.Pages.{IsResolved, resolution-IsResolved}

-- No letters are folded.
abbrev same_case : String → String
same_case s = s

abbrev first_page : List ChatItem
first_page =
    record { chat_mode = group_mode; chat_id = some 1; name = some "Team" }
    ∷ record { chat_mode = other_mode; chat_id = some 2; name = some "Plan" }
    ∷ []

abbrev last_page : List ChatItem
last_page =
    record { chat_mode = topic_mode; chat_id = some 3; name = some " Plan" }
    ∷ record { chat_mode = group_mode; chat_id = none; name = some "Plan" }
    ∷ []

abbrev answers : List PageAnswer
answers = page first_page (some "next") ∷ page last_page none ∷ []

two_plans :
    resolve_exact_group same_case "Plan" (
      page
        (record { chat_mode = group_mode; chat_id = some 1; name = some "Plan" } ∷ last_page)
        none
      ∷ [])
    ≡ searched ambiguous
unfolding resolve_exact_group search matched match_of folded_name trim trim_start trim_end is_space
two_plans = refl

second_page_fails :
    resolve_exact_group same_case "Plan" (page first_page (some "next") ∷ page_failed ∷ [])
    ≡ searched unavailable
unfolding resolve_exact_group search matched match_of folded_name trim trim_start trim_end is_space
second_page_fails = refl

resolution-IsResolved_example : IsResolved same_case "Plan " answers (resolved 3 " Plan")
unfolding resolve_exact_group search matched match_of folded_name trim trim_start trim_end is_space
resolution-IsResolved_example =
    resolution-IsResolved same_case "Plan " answers (resolved 3 " Plan") refl refl
