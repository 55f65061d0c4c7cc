-- ===== src/Content/Tests.antt =====
-- Messages parsed, with a platform that knows two texts and one URL.
use package.text.Mathlib.Text.{◌==◌ as str_eq}
use minori.Common.{◌≡◌, refl, [], ◌∷◌, none, some, if◌then◌else◌}
use minori.Content.{Json, Items, Fields, Url, Platform, ParsedContent}
use minori.Content.Post.{parse_feishu_message_content}

-- `{"text": "@_user_1  see\thttps://team.feishu.cn/wiki/abc  "}`
abbrev greeting : Json
greeting = Json.object (
    Fields.field "text" (Json.string "@_user_1  see\thttps://team.feishu.cn/wiki/abc  ") Fields.end)

abbrev at_node : Json
at_node = Json.object (
    Fields.field "tag" (Json.string "at") (
      Fields.field "user_id" (Json.string "@_user_2")
        (Fields.field "user_name" (Json.string "Ann") Fields.end)))

abbrev link_node : Json
link_node = Json.object (
    Fields.field "tag" (Json.string "a") (
      Fields.field "text" (Json.string "plan")
        (Fields.field "href" (Json.string "https://team.feishu.cn/wiki/abc") Fields.end)))

abbrev code_node : Json
code_node = Json.object (
    Fields.field "tag" (Json.string "code_block") (
      Fields.field "language" (Json.string "SH")
        (Fields.field "text" (Json.string "ls") Fields.end)))

abbrev post : Json
post = Json.object (
    Fields.field "zh_cn"
      (Json.object (
        Fields.field "title" (Json.string " Week ") (
          Fields.field "content"
            (Json.array (
              Items.item
                (Json.array
                  (Items.item at_node (Items.item link_node (Items.item code_node Items.done))))
                Items.done))
            Fields.end)))
      Fields.end)

abbrev wiki : Url
wiki = record { hostname = "Team.Feishu.cn"; pathname = "/wiki/abc" }

abbrev platform : Platform
platform = record {
  parse_json = λ raw.
      if str_eq raw "greeting"
      then some greeting
      else if str_eq raw "post"
      then some post
      else none;
  parse_url = λ url. if str_eq url "https://team.feishu.cn/wiki/abc" then some wiki else none;
}

text_message :
    parse_feishu_message_content platform "text" "greeting" "bot" ("@_user_1" ∷ [])
    ≡ some (
        ParsedContent.text "see https://team.feishu.cn/wiki/abc"
          ("https://team.feishu.cn/wiki/abc" ∷ []))
unfolding parse_feishu_message_content
text_message = refl

post_message :
    parse_feishu_message_content platform "post" "post" "bot" ("@_user_1" ∷ [])
    ≡ some (
        ParsedContent.text "Week\n@Annplan\n```SH\nls\n```"
          ("https://team.feishu.cn/wiki/abc" ∷ []))
unfolding parse_feishu_message_content
post_message = refl

other_message :
    parse_feishu_message_content platform "Sticker!" "" "bot" []
    ≡ some (ParsedContent.omitted "unknown")
unfolding parse_feishu_message_content
other_message = refl
