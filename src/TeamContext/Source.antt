-- ===== src/TeamContext/Source.antt =====
-- What `DefaultTeamContextSource` of src/team-context/source.ts is given and gives, the kinds of its
-- errors, and its fallback to the stored snapshot.
use Prim.Native.Char.{code}
use minori.Common.{
  ℕ, ◌+◌, String, List, [], ◌∷◌, Option, none, some, Bool, true, false, ◌||◌, leb, ◌==◌,
  if◌then◌else◌, or_default,
}
use minori.Common.Text.{append, codes_start_with, is_between}
use minori.Domain.{Ident, Time}
use minori.TeamContext.{
  InvalidationCategory, team_context_missing, team_context_forbidden, TeamContextSnapshot,
  StoreCall,
}

pub data TeamContextStatus : Type 0 where
  loaded stale unavailable over_budget : TeamContextStatus

pub data ErrorCategory : Type 0 where
  team_context_stale team_context_unavailable team_context_over_budget team_context_conflict :
      ErrorCategory

-- What is loaded, where there is something.
pub record LoadedContext : Type 0 where
  pub content : String
  pub source_revision : ℕ
  pub estimated_tokens : ℕ
  pub fetched_at : Time

pub record TeamContextLoad : Type 0 where
  pub status : TeamContextStatus
  pub context : Option LoadedContext
  pub error_category : Option ErrorCategory

pub record Options : Type 0 where
  pub document_token : Ident
  pub token_budget : ℕ
  pub stale_max_ms : ℕ
  pub estimate_tokens : String → ℕ

pub record Document : Type 0 where
  pub token : Ident
  pub markdown : String
  pub revision_id : ℕ

pub data LarkErrorCode : Type 0 where
  aborted cli_error invalid_envelope malformed_json output_limit spawn_failed timeout :
      LarkErrorCode

-- An error that is caught: of the command, or another one.
pub data Error : Type 0 where
  invalid : InvalidationCategory → Error
  lark_error : LarkErrorCode → Option String → Option String → Error
  other_error : Error

-- Case is ignored as the flags `iu` ignore it: `ſ` counts as `s`.
abbrev pub folded : String → List ℕ
folded String.[] = []
folded (String.◌∷◌ c s) =
    (if is_between b'A' b'Z' (code c) then code c + 32 else if code c == 383 then b's' else code c)
    ∷ folded s

abbrev pub mentions_codes : List ℕ → List ℕ → Bool
mentions_codes p [] = codes_start_with p []
mentions_codes p (y ∷ s) = codes_start_with p (y ∷ s) || mentions_codes p s

-- `new RegExp(word, 'iu').test(details)`
abbrev pub mentions : String → String → Bool
mentions word details = mentions_codes (folded word) (folded details)

abbrev pub mentions_any : List String → String → Bool
mentions_any [] details = false
mentions_any (w ∷ ws) details = mentions w details || mentions_any ws details

abbrev pub details_of : Option String → Option String → String
details_of type subtype = append (or_default type "") (append " " (or_default subtype ""))

unfoldable pub invalidation_for : Error → Option InvalidationCategory
invalidation_for (invalid category) = some category
invalidation_for (lark_error cli_error type subtype) =
    if mentions_any
      ("forbidden" ∷ "permission" ∷ "accessdenied" ∷ "access_denied" ∷ "access denied"
        ∷ "access-denied" ∷ [])
      (details_of type subtype)
    then some team_context_forbidden
    else if mentions_any ("notfound" ∷ "not_found" ∷ "not found" ∷ "not-found" ∷ "missing" ∷ [])
        (details_of type subtype)
    then some team_context_missing
    else none
invalidation_for _ = none

unfoldable pub is_temporary : Error → Bool
is_temporary (lark_error timeout type subtype) = true
is_temporary (lark_error spawn_failed type subtype) = true
is_temporary (lark_error cli_error type subtype) =
    mentions_any ("rate" ∷ "temporary" ∷ "unavailable" ∷ "timeout" ∷ "busy" ∷ [])
      (details_of type subtype)
is_temporary _ = false

pub data Fetched : Type 0 where
  fetched : Document → Fetched
  fetch_failed : Error → Fetched

-- What happens outside: the transactions of others before this source's first and second one,
-- whether these answer, the clock, and whether the signal is aborted when an error is caught.
pub record Outside : Type 0 where
  pub others : ℕ → List StoreCall
  pub store_answers : ℕ → Bool
  pub clock : ℕ → Time
  pub is_aborted : Bool

pub data LoadEnd : Type 0 where
  load_returned : TeamContextLoad → LoadEnd
  load_threw : LoadEnd

abbrev pub nothing : TeamContextStatus → ErrorCategory → LoadEnd
nothing status category =
    load_returned (record { status = status; context = none; error_category = some category })

abbrev pub context_of : TeamContextSnapshot → LoadedContext
context_of s = record {
  content = s.normalized_content;
  source_revision = s.source_revision;
  estimated_tokens = s.estimated_tokens;
  fetched_at = s.fetched_at;
}

abbrev pub serve : TeamContextStatus → Option ErrorCategory → TeamContextSnapshot → LoadEnd
serve status category s =
    load_returned
      (record { status = status; context = some (context_of s); error_category = category })

-- `fallback('over_budget')` and `fallback('stale')`, on the snapshot that is stored.
unfoldable pub fallback_over_budget : Option TeamContextSnapshot → LoadEnd
fallback_over_budget none = nothing over_budget team_context_over_budget
fallback_over_budget (some s) = serve over_budget (some team_context_over_budget) s

unfoldable pub fallback_stale : Options → Time → Option TeamContextSnapshot → LoadEnd
fallback_stale opt now none = nothing unavailable team_context_unavailable
fallback_stale opt now (some s) =
    if leb now (s.fetched_at + opt.stale_max_ms)
    then serve stale (some team_context_stale) s
    else nothing unavailable team_context_unavailable

-- A reading of the store that fails ends `fallback` with its error, which is not caught.
abbrev pub read : Bool → LoadEnd → LoadEnd
read answers result = if answers then result else load_threw
