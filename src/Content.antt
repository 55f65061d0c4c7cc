-- ===== src/Content.antt =====
-- What a chat message says: src/feishu/message-content.ts. The platform's `JSON.parse` and `new URL`
-- are the parameters `parse_json` and `parse_url`: what they return, or nothing where they throw.
pub mod Post
pub mod Links
pub mod Tests
use Prim.Native.Char.{code}
use package.text.Mathlib.Text.{◌==◌ as str_eq}
use minori.Common.{
  ℕ, zero, suc, ◌+◌, ◌-◌, String, List, [], ◌∷◌, ◌++◌, Option, none, some, Bool, true, false, ◌&&◌,
  ◌||◌, not, ◌==◌, if◌then◌else◌,
}
use minori.Common.Text.{
  codes, codes_eq, is_between, is_space, is_empty, size, append, trim, starts_with, drop_chars,
  remove_all, any_text,
}

-- A JSON value. A number is given by its shortest decimal text. An object has each of its keys once,
-- in the order in which `Object.values` lists them.
mutual
  pub data Json : Type 0 where
    null : Json
    bool : Bool → Json
    number : String → Json
    string : String → Json
    array : Items → Json
    object : Fields → Json

  pub data Items : Type 0 where
    done : Items
    item : Json → Items → Items

  pub data Fields : Type 0 where
    end : Fields
    field : String → Json → Fields → Fields

pub record Url : Type 0 where
  pub hostname : String
  pub pathname : String

pub record Platform : Type 0 where
  pub parse_json : String → Option Json
  pub parse_url : String → Option Url

pub data ParsedContent : Type 0 where
  text : String → List String → ParsedContent
  omitted : String → ParsedContent

abbrev pub property : String → Fields → Option Json
property key end = none
property key (field k v fs) = if str_eq k key then some v else property key fs

-- `typeof v === 'string'`
abbrev pub as_string : Option Json → Option String
as_string (some (string s)) = some s
as_string _ = none

-- `v && typeof v === 'object' && !Array.isArray(v)`
abbrev pub as_object : Option Json → Option Fields
as_object (some (object fs)) = some fs
as_object _ = none

-- `Array.isArray(v)`
abbrev pub as_array : Option Json → Option Items
as_array (some (array xs)) = some xs
as_array _ = none

-- `toLowerCase` of a host name, which has ASCII characters only.
abbrev pub lower_case : String → List ℕ
lower_case String.[] = []
lower_case (String.◌∷◌ c s) =
    (if is_between b'A' b'Z' (code c) then code c + 32 else code c) ∷ lower_case s

abbrev pub codes_end_with : List ℕ → List ℕ → Bool
codes_end_with suffix [] = codes_eq [] suffix
codes_end_with suffix (x ∷ xs) = codes_eq (x ∷ xs) suffix || codes_end_with suffix xs

abbrev pub is_host_of : List ℕ → String → Bool
is_host_of hostname domain =
    codes_eq hostname (codes domain) || codes_end_with (b'.' ∷ codes domain) hostname

unfoldable pub is_feishu_host : String → Bool
is_feishu_host hostname =
    let h = lower_case hostname in
    is_host_of h "feishu.cn" || (is_host_of h "larksuite.com" || is_host_of h "larkoffice.com")

-- `[A-Za-z0-9_-]`
abbrev pub is_token_char : ℕ → Bool
is_token_char n =
    is_between b'A' b'Z' n
    || (is_between b'a' b'z' n || (is_between b'0' b'9' n || (n == b'_' || n == b'-')))

abbrev pub token_starts : String → Bool
token_starts String.[] = false
token_starts (String.◌∷◌ c s) = is_token_char (code c)

abbrev pub is_path_of : String → String → Bool
is_path_of folder pathname =
    starts_with folder pathname && token_starts (drop_chars (size folder) pathname)

unfoldable pub is_document_path : String → Bool
is_document_path p =
    is_path_of "/wiki/" p
    || (is_path_of "/docx/" p
        || (is_path_of "/docs/" p || (is_path_of "/sheets/" p || is_path_of "/base/" p)))

unfoldable pub is_feishu_document_link : Platform → String → Bool
unfolding is_feishu_host is_document_path
is_feishu_document_link pf value = elim (pf.parse_url value) [
  | none ↦ false
  | some url ↦ is_feishu_host url.hostname && is_document_path url.pathname
]

-- `[^\s<>()]`
abbrev pub is_url_char : ℕ → Bool
is_url_char n = not (is_space n || (n == b'<' || (n == b'>' || (n == b'(' || n == b')'))))

abbrev pub url_chars : String → String
url_chars String.[] = ""
url_chars (String.◌∷◌ c s) =
    let rest = url_chars s in if is_url_char (code c) then String.◌∷◌ c rest else ""

-- The match of `https?:\/\/[^\s<>()]+` at the start of a text: its URL, or the empty text.
abbrev pub url_after : ℕ → String → String
url_after scheme s = if is_empty (url_chars (drop_chars scheme s)) then "" else url_chars s

unfoldable pub url_at : String → String
url_at s =
    if starts_with "https://" s
    then url_after 8 s
    else if starts_with "http://" s
    then url_after 7 s
    else ""

-- `text.match(URL_PATTERN) ?? []`; the first argument counts the characters left of the last match.
unfoldable pub urls : ℕ → String → List String
unfolding url_at
urls skip String.[] = []
urls zero (String.◌∷◌ c s) =
    let found = url_at (String.◌∷◌ c s) in
    let rest = urls (size found - 1) s in if is_empty found then rest else found ∷ rest
urls (suc n) (String.◌∷◌ c s) = urls n s

abbrev pub select_texts : (String → Bool) → List String → List String
select_texts p [] = []
select_texts p (s ∷ ss) = let rest = select_texts p ss in if p s then s ∷ rest else rest

-- `[...new Set(xs)]`: each text once, where it occurs first. `seen` has the ones before.
abbrev pub distinct : List String → List String → List String
distinct seen [] = []
distinct seen (s ∷ ss) =
    let known = any_text s seen in
    let rest = distinct (if known then seen else s ∷ seen) ss in if known then rest else s ∷ rest

unfoldable pub unique_links : Platform → String → List String → List String
unfolding is_feishu_document_link urls
unique_links pf s explicit =
    distinct [] (select_texts (is_feishu_document_link pf) (explicit ++ urls 0 s))

-- `/[\t ]+/gu` to a space; the first argument says that the last character was replaced.
abbrev pub collapse : Bool → String → String
collapse blank String.[] = ""
collapse blank (String.◌∷◌ c s) =
    let here = code c == 9 || code c == 32 in
    let rest = collapse here s in
    if here then (if blank then rest else append " " rest) else String.◌∷◌ c rest

unfoldable pub normalized_line : String → String
unfolding trim
normalized_line s = trim (collapse false s)

abbrev pub remove_keys : List String → String → String
remove_keys [] s = s
remove_keys (key ∷ keys) s = remove_keys keys (remove_all key s)

-- The `text` of the parsed object, if the object has one.
unfoldable pub text_found : Platform → List String → Option String → Option ParsedContent
unfolding normalized_line unique_links remove_all
text_found pf bot_mention_keys none = none
text_found pf bot_mention_keys (some body) =
    let line = normalized_line (remove_keys bot_mention_keys body) in
    some (text line (unique_links pf line []))

unfoldable pub text_parsed : Platform → List String → Option Fields → Option ParsedContent
unfolding text_found
text_parsed pf bot_mention_keys none = none
text_parsed pf bot_mention_keys (some fs) =
    text_found pf bot_mention_keys (as_string (property "text" fs))

unfoldable pub parse_text_content : Platform → String → List String → Option ParsedContent
unfolding text_parsed
parse_text_content pf raw bot_mention_keys =
    text_parsed pf bot_mention_keys (as_object (pf.parse_json raw))
