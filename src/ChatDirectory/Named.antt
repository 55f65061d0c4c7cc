-- ===== src/ChatDirectory/Named.antt =====
-- Which groups on the platform's pages have a name, and what is remembered of them.
use package.text.Mathlib.Text.{◌==◌ as str_eq}
use mathlib.Core.List.{Memᴰ}
use minori.Common.{
  ◌≡◌, ◌↔◌, ◌⊎◌, subst, refl, sym, ap, ◌∙◌, inl, inr, String, List, [], ◌∷◌, Option, none, some,
  Bool, true, false, ◌&&◌, ◌==◌, ==_iff, &&_iff, arith, Bool-cases,
}
use minori.Common.Table.{exists}
use minori.Common.Text.{trim}
use minori.Domain.{Ident}
use minori.ChatDirectory.{
  ChatItem, ChatMode, group_mode, topic_mode, other_mode, GroupResolution, resolved, not_found,
  ambiguous, unavailable, Match, is_group_like, folded_name, match_of, pushed, matched,
}
use minori.ChatDirectory.Exact.{has_id, IsResolutionOf}

-- The item is a group, or a group of topics, with the id and with the name, ignoring case and outer
-- spaces.
pub record IsNamed (lower : String → String) (name : String) (id : Ident) (i : ChatItem)
    : Type 0 where
  pub is_group : (i.chat_mode ≡ group_mode) ⊎ (i.chat_mode ≡ topic_mode)
  pub own_id : i.chat_id ≡ some id
  pub own_name : String
  pub named : i.name ≡ some own_name
  pub same_name : str_eq (lower (trim own_name)) (lower (trim name)) ≡ true

abbrev pub Named : (String → String) → String → List ChatItem → Ident → Type 0
Named lower name items id = (i : ChatItem) × Memᴰ i items × IsNamed lower name id i

-- What a resolution says of the items that were read. Resolved: the id is that of a group with the name,
-- and no other group has the name. Ambiguous: two different groups have it.
abbrev pub IsRight : (String → String) → String → List ChatItem → GroupResolution → Type 0
IsRight lower name items (resolved id shown) =
    (str_eq (lower (trim shown)) (lower (trim name)) ≡ true)
    × ((other : Ident) → Named lower name items other ↔ (id ≡ other))
IsRight lower name items not_found = (other : Ident) → ¬ Named lower name items other
IsRight lower name items ambiguous =
    (a : Ident) × (b : Ident) × (¬ (a ≡ b)) × Named lower name items a × Named lower name items b
IsRight lower name items unavailable = ⊥

module _ (lower : String → String) (name : String) where
  bool_apart : ◌≡◌ {A = Bool} false true → ⊥
  bool_apart h = cc

  group_like : (m : ChatMode) → is_group_like m ≡ true → (m ≡ group_mode) ⊎ (m ≡ topic_mode)
  group_like group_mode h = inl refl
  group_like topic_mode h = inr refl
  group_like other_mode h = absurd (cc)

  like_group : (m : ChatMode) → (m ≡ group_mode) ⊎ (m ≡ topic_mode) → is_group_like m ≡ true
  like_group m (inl e) = rw e refl
  like_group m (inr e) = rw e refl

  abbrev pub expected : String
  expected = folded_name lower name

  match_parts :
      (mode : ChatMode) (id : Option Ident) (shown : Option String) (m : Match)
      → match_of lower expected mode id shown ≡ some m
      → (is_group_like mode ≡ true)
        × (id ≡ some m.id)
        × (shown ≡ some m.name)
        × (str_eq (lower (trim m.name)) (lower (trim name)) ≡ true)
  unfolding match_of folded_name
  match_parts mode none none m h = absurd (cc)
  match_parts mode none (some n) m h = absurd (cc)
  match_parts mode (some i) none m h = absurd (cc)
  match_parts mode (some i) (some n) m h =
      elim (Bool-cases (is_group_like mode && str_eq (lower (trim n)) (lower (trim name)))) [
        | inr e ↦ absurd (ground arith)
        | inl e ↦
            let (g, s) = (&&_iff (is_group_like mode) _).0 e in
            let made : Match = record { id = i; name = n } in
            let same : made ≡ m = ground arith in
            (
              g,
              ap (λ (x : Match). some x.id) same,
              ap (λ (x : Match). some x.name) same,
              subst (λ (x : Match). str_eq (lower (trim x.name)) (lower (trim name)) ≡ true) same s,
            )
      ]

  match_made :
      (mode : ChatMode) (id : Ident) (shown : String)
      → is_group_like mode ≡ true
      → str_eq (lower (trim shown)) (lower (trim name)) ≡ true
      → match_of lower expected mode (some id) (some shown)
        ≡ some (record { id = id; name = shown })
  unfolding match_of folded_name
  match_made mode id shown g s = rw (g, s) refl

  match_of-IsNamed :
      (i : ChatItem) (m : Match)
      → match_of lower expected i.chat_mode i.chat_id i.name ≡ some m
      → IsNamed lower name m.id i
  match_of-IsNamed i m h =
      let (g, c, n, s) = match_parts i.chat_mode i.chat_id i.name m h in
      record {
        is_group = group_like i.chat_mode g;
        own_id = c;
        own_name = m.name;
        named = n;
        same_name = s;
      }

  IsNamed-match_of :
      (i : ChatItem) (id : Ident) (h : IsNamed lower name id i)
      → match_of lower expected i.chat_mode i.chat_id i.name
        ≡ some (record { id = id; name = h.own_name })
  IsNamed-match_of i id h =
      subst
        (λ c.
          match_of lower expected i.chat_mode c i.name
          ≡ some (record { id = id; name = h.own_name }))
        (sym h.own_id)
        (subst
          (λ n.
            match_of lower expected i.chat_mode (some id) n
            ≡ some (record { id = id; name = h.own_name }))
          (sym h.named)
          (match_made i.chat_mode id h.own_name (like_group i.chat_mode h.is_group) h.same_name))

  pushed-Named :
      (i : ChatItem) (items : List ChatItem) (o : Option Match) (id : Ident)
      → match_of lower expected i.chat_mode i.chat_id i.name ≡ o
      → (exists (has_id id) (matched lower expected items) ≡ true → Named lower name items id)
      → exists (has_id id) (pushed o (matched lower expected items)) ≡ true
      → Named lower name (i ∷ items) id
  pushed-Named i items none id q ih h = let (x, m, n) = ih h in (x, Memᴰ.tail m, n)
  pushed-Named i items (some m) id q ih h = elim (Bool-cases (m.id == id)) [
    | inl e ↦ (
      i,
      Memᴰ.head refl,
      subst (λ k. IsNamed lower name k i) ((==_iff m.id id).0 e) (match_of-IsNamed i m q),
    )
    | inr e ↦ let (x, k, n) = ih (rw e at h) in (x, Memᴰ.tail k, n)
  ]

  exists-Named :
      (items : List ChatItem) (id : Ident)
      → exists (has_id id) (matched lower expected items) ≡ true
      → Named lower name items id
  unfolding matched
  exists-Named [] id h = absurd (cc)
  exists-Named (i ∷ items) id h =
      pushed-Named i items (match_of lower expected i.chat_mode i.chat_id i.name) id refl
        (exists-Named items id) h

  pushed-kept :
      (o : Option Match) (ms : List Match) (id : Ident)
      → exists (has_id id) ms ≡ true
      → exists (has_id id) (pushed o ms) ≡ true
  pushed-kept none ms id h = h
  pushed-kept (some m) ms id h = ground arith

  Named-exists :
      (items : List ChatItem) (i : ChatItem) (id : Ident)
      → Memᴰ i items
      → IsNamed lower name id i
      → exists (has_id id) (matched lower expected items) ≡ true
  unfolding matched
  Named-exists [] i id m h = elim m [ ]
  Named-exists (x ∷ items) i id (Memᴰ.head e) h =
      let h' = subst (IsNamed lower name id) e h in
      subst (λ o. exists (has_id id) (pushed o (matched lower expected items)) ≡ true)
        (sym (IsNamed-match_of x id h')) (rw ((==_iff id id).1 refl) refl)
  Named-exists (x ∷ items) i id (Memᴰ.tail m) h =
      pushed-kept (match_of lower expected x.chat_mode x.chat_id x.name)
        (matched lower expected items) id (Named-exists items i id m h)

  pub IsResolutionOf-IsRight :
      (items : List ChatItem) (r : GroupResolution)
      → IsResolutionOf lower expected (matched lower expected items) r
      → IsRight lower name items r
  unfolding folded_name
  IsResolutionOf-IsRight items (resolved id shown) h = (
    h.0,
    λ other. (
      λ (i, m, n). (==_iff id other).0 (sym (h.1 other) ∙ Named-exists items i other m n),
      λ e. exists-Named items other (h.1 other ∙ (==_iff id other).1 e),
    ),
  )
  IsResolutionOf-IsRight items not_found h =
      λ other (i, m, n). absurd (bool_apart (sym (h other) ∙ Named-exists items i other m n))
  IsResolutionOf-IsRight items ambiguous (a, b, apart, ha, hb) = (
    a,
    b,
    λ e. bool_apart (sym apart ∙ (==_iff b a).1 (sym e)),
    exists-Named items a ha,
    exists-Named items b hb,
  )
  IsResolutionOf-IsRight items unavailable h = h
