-- ===== src/Content/Post.antt =====
-- A post: rows of nodes, of which the texts become lines and the links are kept.
use text.Mathlib.Text.{◌==◌ as str_eq}
use minori.Common.{
  String, List, [], ◌∷◌, ◌++◌, Option, none, some, Bool, true, false, ◌&&◌, ◌||◌, not, ◌==◌,
  if◌then◌else◌, or_default, is_some,
}
use minori.Common.Text.{is_between, is_empty, append, join, trim, any_text}
use minori.Content.{
  Json, Items, Fields, Platform, ParsedContent, property, as_string, as_object, as_array,
  normalized_line, unique_links, parse_text_content,
}
use Prim.Native.Char.{code}

-- `String(v)`, where `v` may be missing.
abbrev mutual
  pub shown : Json → String
  shown Json.null = "null"
  shown (Json.bool true) = "true"
  shown (Json.bool false) = "false"
  shown (Json.number n) = n
  shown (Json.string s) = s
  shown (Json.array xs) = join "," (shown_items xs)
  shown (Json.object fs) = "[object Object]"

  pub shown_items : Items → List String
  shown_items Items.done = []
  shown_items (Items.item Json.null xs) = "" ∷ shown_items xs
  shown_items (Items.item x xs) = shown x ∷ shown_items xs

abbrev pub as_text : Option Json → String
as_text none = "undefined"
as_text (some v) = shown v

-- The lines and links so far, and the line that is being put together.
pub record Page : Type 0 where
  pub lines : List String
  pub links : List String
  pub inline : String

abbrev pub add_text : Option String → Page → Page
add_text none p = p
add_text (some s) p = record p { inline = append p.inline s }

abbrev pub add_link : Option String → Page → Page
add_link none p = p
add_link (some href) p = record p { links = p.links ++ href ∷ [] }

unfoldable pub flush_inline : Page → Page
unfolding normalized_line
flush_inline p =
    let line = normalized_line p.inline in
    record p { lines = if is_empty line then p.lines else p.lines ++ line ∷ []; inline = "" }

abbrev pub code_line : String → String → String
code_line language body = append "```" (append language (append "\n" (append body "\n```")))

abbrev pub is_tag : String → Fields → Bool
is_tag name node = elim (as_string (property "tag" node)) [
  | none ↦ false
  | some tag ↦ str_eq tag name
]

-- One node of a row.
unfoldable pub add_node : String → List String → Fields → Page → Page
unfolding flush_inline
add_node bot_open_id bot_mention_keys node p =
    let body = as_string (property "text" node) in
    if is_tag "at" node
    then (let user_id = as_text (property "user_id" node) in
        if not (str_eq user_id bot_open_id) && not (any_text user_id bot_mention_keys)
        then add_text
            (elim (as_string (property "user_name" node)) [
              | none ↦ none
              | some name ↦ some (append "@" name)
            ])
            p
        else p)
    else if is_tag "a" node
    then add_link (as_string (property "href" node)) (add_text body p)
    else if is_tag "code_block" node && is_some body
    then (let flushed = flush_inline p in
        let language = or_default (as_string (property "language" node)) "" in
        record flushed { lines = flushed.lines ++ code_line language (or_default body "") ∷ [] })
    else add_text body p

unfoldable pub add_row : String → List String → Items → Page → Page
unfolding add_node
add_row bot_open_id bot_mention_keys Items.done p = p
add_row bot_open_id bot_mention_keys (Items.item (Json.object node) xs) p =
    add_row bot_open_id bot_mention_keys xs (add_node bot_open_id bot_mention_keys node p)
add_row bot_open_id bot_mention_keys (Items.item x xs) p = add_row bot_open_id bot_mention_keys xs p

unfoldable pub add_rows : String → List String → Items → Page → Page
unfolding add_row flush_inline
add_rows bot_open_id bot_mention_keys Items.done p = p
add_rows bot_open_id bot_mention_keys (Items.item (Json.array row) xs) p =
    add_rows bot_open_id bot_mention_keys xs
      (flush_inline (add_row bot_open_id bot_mention_keys row (record p { inline = "" })))
add_rows bot_open_id bot_mention_keys (Items.item x xs) p =
    add_rows bot_open_id bot_mention_keys xs p

-- The post itself: the object if its content is a list, or else its first value.
abbrev pub first_value : Fields → Option Json
first_value Fields.end = none
first_value (Fields.field k v fs) = some v

abbrev pub candidate : Fields → Option Items → Option Json
candidate fs none = first_value fs
candidate fs (some rows) = some (Json.object fs)

abbrev pub title_lines : Option String → List String
unfolding normalized_line
title_lines none = []
title_lines (some title) =
    if is_empty (normalized_line title) then [] else normalized_line title ∷ []

-- The rows of the post, if its content is a list.
unfoldable pub parse_rows :
    Platform → String → List String → Fields → Option Items → Option ParsedContent
unfolding add_rows unique_links trim
parse_rows pf bot_open_id bot_mention_keys post none = none
parse_rows pf bot_open_id bot_mention_keys post (some rows) =
    let page = add_rows bot_open_id bot_mention_keys rows (record {
      lines = title_lines (as_string (property "title" post));
      links = [];
      inline = "";
    }) in
    let body = trim (join "\n" page.lines) in
    some (ParsedContent.text body (unique_links pf body page.links))

unfoldable pub parse_candidate :
    Platform → String → List String → Option Fields → Option ParsedContent
unfolding parse_rows
parse_candidate pf bot_open_id bot_mention_keys none = none
parse_candidate pf bot_open_id bot_mention_keys (some post) =
    parse_rows pf bot_open_id bot_mention_keys post (as_array (property "content" post))

unfoldable pub post_parsed : Platform → String → List String → Option Fields → Option ParsedContent
unfolding parse_candidate
post_parsed pf bot_open_id bot_mention_keys none = none
post_parsed pf bot_open_id bot_mention_keys (some fs) =
    parse_candidate pf bot_open_id bot_mention_keys
      (as_object (candidate fs (as_array (property "content" fs))))

unfoldable pub parse_post_content : Platform → String → String → List String → Option ParsedContent
unfolding post_parsed
parse_post_content pf raw bot_open_id bot_mention_keys =
    post_parsed pf bot_open_id bot_mention_keys (as_object (pf.parse_json raw))

-- `/^[a-z0-9_]+$/u`
abbrev pub are_type_chars : String → Bool
are_type_chars String.[] = true
are_type_chars (String.◌∷◌ c s) =
    (is_between b'a' b'z' (code c) || (is_between b'0' b'9' (code c) || code c == b'_'))
    && are_type_chars s

abbrev pub is_type_name : String → Bool
is_type_name s = not (is_empty s) && are_type_chars s

unfoldable pub parse_feishu_message_content :
    Platform → String → String → String → List String → Option ParsedContent
unfolding parse_text_content parse_post_content
parse_feishu_message_content pf message_type raw bot_open_id bot_mention_keys =
    if str_eq message_type "text"
    then parse_text_content pf raw bot_mention_keys
    else if str_eq message_type "post"
    then parse_post_content pf raw bot_open_id bot_mention_keys
    else some
        (ParsedContent.omitted (if is_type_name message_type then message_type else "unknown"))
