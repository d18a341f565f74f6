-- ===== src/Model.antt =====
-- internal/model/model.go: the shared enums and entities. A Go string type with a closed set of
-- constants is a data type; times and ids are natural numbers, an int that the code may compare
-- below zero is not among them.
use rabbot_seo.Base.{ℕ, String, Bool, true, false, Option}

pub data Severity : Type 0 where
  critical warning info : Severity

-- The constants behind the type, as routes and fingerprints read them.
abbrev pub severity_string : Severity → String
severity_string critical = "critical"
severity_string warning = "warning"
severity_string info = "info"

abbrev pub severity_eq : Severity → Severity → Bool
severity_eq critical critical = true
severity_eq warning warning = true
severity_eq info info = true
severity_eq _ _ = false

pub data FetchClass : Type 0 where
  ok soft_block hard_block unreachable : FetchClass

abbrev pub fetch_class_string : FetchClass → String
fetch_class_string ok = "ok"
fetch_class_string soft_block = "soft_block"
fetch_class_string hard_block = "hard_block"
fetch_class_string unreachable = "unreachable"

pub data StatusType : Type 0 where
  page redirect missing server_error unreachable_status : StatusType

pub data AlertStatus : Type 0 where
  open_status closed_status : AlertStatus

abbrev pub is_open : AlertStatus → Bool
is_open open_status = true
is_open closed_status = false

pub data IssueStatus : Type 0 where
  open_issue closed_issue ignored_issue : IssueStatus

abbrev pub is_open_issue : IssueStatus → Bool
is_open_issue open_issue = true
is_open_issue _ = false

abbrev pub is_ignored_issue : IssueStatus → Bool
is_ignored_issue ignored_issue = true
is_ignored_issue _ = false

abbrev pub is_closed_issue : IssueStatus → Bool
is_closed_issue closed_issue = true
is_closed_issue _ = false

abbrev pub status_eq : IssueStatus → IssueStatus → Bool
status_eq open_issue s = is_open_issue s
status_eq closed_issue s = is_closed_issue s
status_eq ignored_issue s = is_ignored_issue s

-- A row of the issues table.
pub record Issue : Type 0 where
  pub id : ℕ
  pub url_id : ℕ
  pub rule_id : String
  pub status : IssueStatus
  pub severity : Severity
  pub impact_points : ℕ
  pub opened_at : ℕ
  pub closed_at : Option ℕ
  pub last_seen_at : ℕ
  pub detail : String

-- A row of the alerts table: one incident.
pub record Alert : Type 0 where
  pub id : ℕ
  pub site_id : ℕ
  pub fingerprint : String
  pub group_key : String
  pub severity : Severity
  pub status : AlertStatus
  pub affected_count : ℕ
  pub first_detected_at : ℕ
  pub last_updated_at : ℕ
  pub last_notified_at : Option ℕ
  pub auto_closed_at : Option ℕ
  pub payload_summary : String
