-- ===== src/Content/Links.antt =====
-- The links that are taken from a message.
use package.text.Mathlib.Text.{◌==◌ as str_eq}
use package.text.Mathlib.TextEquality.{eq_iff}
use minori.Common.{
  ◌≡◌, refl, inl, inr, String, List, [], ◌∷◌, Option, none, some, Bool, true, false, arith, All,
  All-map, Bool-cases,
}
use minori.Common.Text.{any_text}
use minori.Content.{
  Items, Fields, Platform, ParsedContent, property, as_string, as_object, as_array,
  is_feishu_document_link, select_texts, distinct, unique_links, text_found, text_parsed,
  parse_text_content,
}
use minori.Content.Post.{
  parse_feishu_message_content, parse_post_content, post_parsed, parse_candidate, parse_rows,
}

-- No text is in the list twice.
abbrev pub HasNoRepeats : List String → Type 0
HasNoRepeats [] = Unit {0}
HasNoRepeats (s ∷ ss) = (any_text s ss ≡ false) × HasNoRepeats ss

-- The links are supported document links, each of them listed once.
abbrev pub AreDocuments : Platform → List String → Type 0
AreDocuments pf links = All (λ l. is_feishu_document_link pf l ≡ true) links × HasNoRepeats links

abbrev pub HasDocuments : Platform → Option ParsedContent → Type 0
HasDocuments pf (some (ParsedContent.text body links)) = AreDocuments pf links
HasDocuments pf _ = Unit {0}

select-All : (p : String → Bool) (ss : List String) → All (λ s. p s ≡ true) (select_texts p ss)
select-All p [] = tt
select-All p (s ∷ ss) = elim (Bool-cases (p s)) [
  | inl e ↦ rw e (e, select-All p ss)
  | inr e ↦ rw e (select-All p ss)
]

distinct-All :
    (p : String → Bool) (ss seen : List String)
    → All (λ s. p s ≡ true) ss
    → All (λ s. p s ≡ true) (distinct seen ss)
distinct-All p [] seen h = tt
distinct-All p (s ∷ ss) seen h = elim (Bool-cases (any_text s seen)) [
  | inl e ↦ rw e (distinct-All p ss seen h.1)
  | inr e ↦ rw e (h.0, distinct-All p ss (s ∷ seen) h.1)
]

-- What is kept was not seen before.
distinct-fresh : (ss seen : List String) → All (λ s. any_text s seen ≡ false) (distinct seen ss)
distinct-fresh [] seen = tt
distinct-fresh (s ∷ ss) seen = elim (Bool-cases (any_text s seen)) [
  | inl e ↦ rw e (distinct-fresh ss seen)
  | inr e ↦
      rw e (
        e,
        All-map _ _ (distinct (s ∷ seen) ss) (λ t h. ground arith) (distinct-fresh ss (s ∷ seen)),
      )
]

not_among :
    (s : String) (ss : List String) → All (λ t. str_eq s t ≡ false) ss → any_text s ss ≡ false
not_among s [] h = refl
not_among s (t ∷ ts) h = ground (arith, eq_iff s t, eq_iff t s, not_among s ts h.1)

distinct-HasNoRepeats : (ss seen : List String) → HasNoRepeats (distinct seen ss)
distinct-HasNoRepeats [] seen = tt
distinct-HasNoRepeats (s ∷ ss) seen = elim (Bool-cases (any_text s seen)) [
  | inl e ↦ rw e (distinct-HasNoRepeats ss seen)
  | inr e ↦ rw e (
    not_among s _
        (All-map _ _ (distinct (s ∷ seen) ss) (λ t h. ground arith) (distinct-fresh ss (s ∷ seen))),
    distinct-HasNoRepeats ss (s ∷ seen),
  )
]

unique_links-AreDocuments :
    (pf : Platform) (body : String) (explicit : List String)
    → AreDocuments pf (unique_links pf body explicit)
unfolding unique_links
unique_links-AreDocuments pf body explicit = (
  distinct-All (is_feishu_document_link pf) _ [] (select-All (is_feishu_document_link pf) _),
  distinct-HasNoRepeats _ [],
)

text_found-HasDocuments :
    (pf : Platform) (keys : List String) (o : Option String)
    → HasDocuments pf (text_found pf keys o)
unfolding text_found
text_found-HasDocuments pf keys none = tt
text_found-HasDocuments pf keys (some body) = search unique_links-AreDocuments

text_parsed-HasDocuments :
    (pf : Platform) (keys : List String) (o : Option Fields)
    → HasDocuments pf (text_parsed pf keys o)
unfolding text_parsed
text_parsed-HasDocuments pf keys none = tt
text_parsed-HasDocuments pf keys (some fs) =
    text_found-HasDocuments pf keys (as_string (property "text" fs))

parse_rows-HasDocuments :
    (pf : Platform) (bot : String) (keys : List String) (post : Fields) (o : Option Items)
    → HasDocuments pf (parse_rows pf bot keys post o)
unfolding parse_rows
parse_rows-HasDocuments pf bot keys post none = tt
parse_rows-HasDocuments pf bot keys post (some rows) = search unique_links-AreDocuments

candidate-HasDocuments :
    (pf : Platform) (bot : String) (keys : List String) (o : Option Fields)
    → HasDocuments pf (parse_candidate pf bot keys o)
unfolding parse_candidate
candidate-HasDocuments pf bot keys none = tt
candidate-HasDocuments pf bot keys (some post) =
    parse_rows-HasDocuments pf bot keys post (as_array (property "content" post))

post-HasDocuments :
    (pf : Platform) (bot : String) (keys : List String) (o : Option Fields)
    → HasDocuments pf (post_parsed pf bot keys o)
unfolding post_parsed
post-HasDocuments pf bot keys none = tt
post-HasDocuments pf bot keys (some fs) = search candidate-HasDocuments

-- The links of a message that is read are links to documents of the three supported sites, and each
-- is listed once, whatever the message's type and content.
links_are_documents :
    (pf : Platform) (message_type raw bot : String) (keys : List String)
    → HasDocuments pf (parse_feishu_message_content pf message_type raw bot keys)
unfolding parse_feishu_message_content parse_text_content parse_post_content
links_are_documents pf message_type raw bot keys = elim (Bool-cases (str_eq message_type "text")) [
  | inl e ↦ rw e (text_parsed-HasDocuments pf keys (as_object (pf.parse_json raw)))
  | inr e ↦ rw e (elim (Bool-cases (str_eq message_type "post")) [
    | inl f ↦ rw f (post-HasDocuments pf bot keys (as_object (pf.parse_json raw)))
    | inr f ↦ rw f tt
  ])
]
