-- ===== src/Sources/Tests.antt =====
-- Four registrations, of which one is invalid and one repeats a URL.
use minori.Common.{◌≡◌, refl, List, [], ◌∷◌, map, some, none, true, false, if◌then◌else◌}
use minori.Common.Text.{codes, decimal, is_space}
use minori.Sources.{
  listed, listed_next, normalize_agent_source, Text, Platform, Identity, AgentSource, collapse,
  trim_start, trim_end, normalize_title, has_control, identity_of, normalize_source_identity,
  register_found, register_identity, register, register_all, decimal, format_agent_reply,
}

-- Every text without spaces and controls is the address of a page.
abbrev pages : Platform
pages = record {
  parse_url = λ u. if has_control u then none else some (record { is_web = true; href = u });
  is_format = λ c. false;
}

abbrev input : Text → Text → Identity
input title url = record { title = title; url = url }

abbrev inputs : List Identity
inputs =
    input (codes " Team  notes\n") (codes "https://a")
    ∷ input (codes " ") (codes "https://b")
    ∷ input (codes "Other") (codes "https://a")
    ∷ input (codes "Plan") (codes "https://c")
    ∷ []

twelve : decimal 120 ≡ "120"
twelve = refl

two_sources :
    map (λ (s : AgentSource). s.title) (register_all pages inputs [])
    ≡ codes "Team notes" ∷ codes "Plan" ∷ []
unfolding register_all register register_identity register_found normalize_source_identity
    identity_of normalize_title collapse trim_start trim_end is_space
two_sources = refl

abbrev sources : List AgentSource
sources =
    record { id = 1; title = codes "Team notes"; url = codes "https://a" }
    ∷ record { id = 2; title = codes "Plan"; url = codes "https://c" }
    ∷ []

printed :
    format_agent_reply pages (codes "See [2].") sources
    ≡ codes "See [2].\n\nSources:\n[1] Team notes — https://a\n[2] Plan — https://c"
unfolding format_agent_reply listed listed_next normalize_agent_source normalize_source_identity
    identity_of normalize_title collapse trim_start trim_end is_space
printed = refl
