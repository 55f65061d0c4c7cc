-- ===== src/Audit/Tools.antt =====
-- The records of what tools have read: `recordKnowledgeSearch` and `recordMeetingRead` of
-- src/storage/agent-run-store.ts, with the texts of their summaries.
use minori.Common.{ℕ, String, List, [], ◌∷◌, ◌++◌, Option, none, some, Bool}
use minori.Common.Text.{append, join, decimal}
use minori.Domain.{Ident, Time}
use minori.Audit.{ToolRunRow, Audit}

abbrev pub add_tool_run : ToolRunRow → Audit → Audit
add_tool_run t a = record a { tool_runs = a.tool_runs ++ t ∷ [] }

-- A finished call that is no write.
abbrev pub read_row : Ident → Ident → String → Bool → Option String → String → Time → ToolRunRow
read_row id agent_run_id tool_name success error_category summary now = record {
  id = id;
  agent_run_id = agent_run_id;
  tool_name = tool_name;
  target_identifiers = none;
  success = some success;
  error_category = error_category;
  sanitized_summary = some summary;
  result_identifiers = none;
  started_at = now;
  finished_at = some now;
}

-- What is noted of a search or of the reading of a meeting: counts, and nothing that was read.
pub record KnowledgeSearchAudit : Type 0 where
  pub success : Bool
  pub raw_count : ℕ
  pub valid_count : ℕ
  pub omitted_count : ℕ
  pub error_category : Option String

pub record MeetingReadAudit : Type 0 where
  pub tool_name : String
  pub success : Bool
  pub raw_count : Option ℕ
  pub valid_count : Option ℕ
  pub omitted_count : Option ℕ
  pub fetched_count : Option ℕ
  pub content_kind : Option String
  pub error_category : Option String

abbrev pub noted : String → ℕ → String
noted name n = append name (decimal n)

unfoldable pub record_knowledge_search : Ident → Ident → KnowledgeSearchAudit → Time → Audit → Audit
record_knowledge_search id agent_run_id i now a =
    add_tool_run
      (read_row id agent_run_id "searchKnowledge" i.success i.error_category
        (join " " (
          noted "raw=" i.raw_count
          ∷ noted "valid=" i.valid_count
          ∷ noted "omitted=" i.omitted_count
          ∷ []))
        now)
      a

-- `x === undefined ? undefined : ...`, filtered.
abbrev pub part : {A : Type 0} → (A → String) → Option A → List String → List String
part show none rest = rest
part show (some x) rest = show x ∷ rest

unfoldable pub record_meeting_read : Ident → Ident → MeetingReadAudit → Time → Audit → Audit
record_meeting_read id agent_run_id i now a =
    add_tool_run
      (read_row id agent_run_id i.tool_name i.success i.error_category
        (join " " (
          part (noted "raw=") i.raw_count (
            part (noted "valid=") i.valid_count (
              part (noted "omitted=") i.omitted_count (
                part (noted "fetched=") i.fetched_count
                  (part (append "kind=") i.content_kind []))))))
        now)
      a
