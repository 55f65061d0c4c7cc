-- ===== src/Sources/Registry.antt =====
-- The registry of sources: what holds of its entries after any registrations.
use minori.Common.Text.{codes_eq}
use minori.Common.{
  ℕ, suc, ◌+◌, ◌≡◌, refl, sym, inl, inr, List, [], ◌∷◌, ◌++◌, Option, none, some, Bool, true, false,
  subst, arith, length, Bool-cases, All, All-append,
}
use minori.Common.Table.{find}
use minori.Sources.{
  Text, Location, Platform, Identity, AgentSource, normalize_title, is_nil, has_control,
  identity_of, normalize_source_identity, register_found, register_identity, register, register_all,
}
use minori.Sources.Titles.{normalize_title-again}

-- The `href` of a web address is parsed again to itself, and has no space and no control character.
-- Of other addresses nothing is asked.
abbrev pub IsStableHref : Platform → Location → Bool → Type 0
IsStableHref pf l true = (pf.parse_url l.href ≡ some l) × (has_control l.href ≡ false)
IsStableHref pf l false = Unit {0}

abbrev pub IsStable : Platform → Option Location → Type 0
IsStable pf none = Unit {0}
IsStable pf (some l) = IsStableHref pf l l.is_web

-- The title and the URL are normalized.
abbrev pub IsNormal : Platform → AgentSource → Type 0
IsNormal pf s =
    normalize_source_identity pf s.title s.url ≡ some (record { title = s.title; url = s.url })

-- The ids go on from a number, and the URL is none of those seen nor any later one.
abbrev pub IsNumbered : ℕ → List AgentSource → Type 0
IsNumbered n [] = Unit {0}
IsNumbered n (s ∷ ss) = (s.id ≡ n) × IsNumbered (suc n) ss

abbrev pub AreApart : List AgentSource → Type 0
AreApart [] = Unit {0}
AreApart (s ∷ ss) = All (λ (o : AgentSource). codes_eq o.url s.url ≡ false) ss × AreApart ss

pub record IsRegistry (pf : Platform) (sources : List AgentSource) : Type 0 where
  pub normal : All (IsNormal pf) sources
  pub numbered : IsNumbered 1 sources
  pub apart : AreApart sources

IsNumbered-append :
    (n : ℕ) (ss : List AgentSource) (s : AgentSource)
    → IsNumbered n ss
    → s.id ≡ n + length ss
    → IsNumbered n (ss ++ s ∷ [])
IsNumbered-append n [] s h e = (omega (arith, e), tt)
IsNumbered-append n (x ∷ xs) s h e = (h.0, IsNumbered-append (suc n) xs s h.1 (omega (arith, e)))

AreApart-append :
    (ss : List AgentSource) (s : AgentSource)
    → AreApart ss
    → find (λ (o : AgentSource). codes_eq s.url o.url) ss ≡ none
    → AreApart (ss ++ s ∷ [])
AreApart-append [] s h f = (tt, tt)
AreApart-append (x ∷ xs) s h f = elim (Bool-cases (codes_eq s.url x.url)) [
  | inl e ↦ absurd (ground arith)
  | inr e ↦ (
    All-append (λ (o : AgentSource). codes_eq o.url x.url ≡ false) xs (s ∷ []) h.0 (e, tt),
    AreApart-append xs s h.1 (ground arith),
  )
]

-- A normalized title and URL stay the same.
identity-again :
    (pf : Platform) (title url : Text) (i : Identity)
    → pf.is_format 32 ≡ false
    → ((u : Text) → IsStable pf (pf.parse_url u))
    → normalize_source_identity pf title url ≡ some i
    → normalize_source_identity pf i.title i.url ≡ some i
unfolding normalize_source_identity identity_of
identity-again pf title url i space stable h = elim (Bool-cases (has_control url)) [
  | inl e ↦ absurd (ground arith)
  | inr e ↦ parsed (pf.parse_url url) (stable url) (rw e at h)
]
  where
    parsed :
        (o : Option Location)
        → IsStable pf o
        → identity_of pf title o ≡ some i
        → normalize_source_identity pf i.title i.url ≡ some i
    parsed none st q = absurd (cc)
    parsed (some l) st q = elim (Bool-cases l.is_web) [
      | inr w ↦ absurd (ground arith)
      | inl w ↦ elim (Bool-cases (is_nil (normalize_title pf title))) [
        | inl empty ↦ absurd (ground arith)
        | inr filled ↦
            let again = normalize_title-again pf title space in
            let st' : IsStableHref pf l true = subst (IsStableHref pf l) w st in
            let made : some (record { title = normalize_title pf title; url = l.href }) ≡ some i =
              rw filled at (rw w at q) in
            let same_title : normalize_title pf title ≡ i.title = ground arith in
            let same_url : l.href ≡ i.url = ground arith in
            rw (sym same_title, sym same_url) (rw (st'.1, st'.0) (rw w (rw again (rw filled refl))))
      ]
    ]

found-IsRegistry :
    (pf : Platform) (sources : List AgentSource) (i : Identity) (o : Option AgentSource)
    → normalize_source_identity pf i.title i.url ≡ some i
    → find (λ (s : AgentSource). codes_eq i.url s.url) sources ≡ o
    → IsRegistry pf sources
    → IsRegistry pf (register_found sources i o).0
unfolding register_found
found-IsRegistry pf sources i (some existing) n f h = h
found-IsRegistry pf sources i none n f h = record {
  normal = All-append (IsNormal pf) sources _ h.normal (n, tt);
  numbered = IsNumbered-append 1 sources _ h.numbered (omega arith);
  apart = AreApart-append sources _ h.apart f;
}

module _ (pf : Platform) (space : pf.is_format 32 ≡ false)
    (stable : (u : Text) → IsStable pf (pf.parse_url u)) where
  identity-IsRegistry :
      (sources : List AgentSource) (title url : Text) (o : Option Identity)
      → normalize_source_identity pf title url ≡ o
      → IsRegistry pf sources
      → IsRegistry pf (register_identity sources o).0
  unfolding register_identity
  identity-IsRegistry sources title url none n h = h
  identity-IsRegistry sources title url (some i) n h =
      found-IsRegistry pf sources i _ (identity-again pf title url i space stable n) refl h

  pub register_all-IsRegistry :
      (is : List Identity) (sources : List AgentSource)
      → IsRegistry pf sources
      → IsRegistry pf (register_all pf is sources)
  unfolding register_all register
  register_all-IsRegistry [] sources h = h
  register_all-IsRegistry (i ∷ is) sources h =
      register_all-IsRegistry is (register pf i sources).0
        (identity-IsRegistry sources i.title i.url _ refl h)
