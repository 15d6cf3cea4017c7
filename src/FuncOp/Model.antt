-- ===== src/FuncOp/Model.antt =====
-- The rows of func-operation/internal/model, and the tables that hold them. A column that holds
-- one of a few constants is a data type; times, versions and ids are the native numbers.
use ai_dandelion.Base.{ℕ, String, Bool, List}
use ai_dandelion.Db.{Action}

pub data ReleaseStatus : Type 0 where
  staged published revoked : ReleaseStatus

pub record FunctionRelease : Type 0 where
  pub id : ℕ
  pub uuid : String
  pub function_id : String
  pub app_id : String
  pub version : ℕ
  pub artifact_sha256 : String
  pub manifest_json : String
  pub status : ReleaseStatus
  pub created_by : String
  pub created_at : ℕ
  pub published_at : ℕ
  pub updated_at : ℕ

pub data OutboxStatus : Type 0 where
  pending processing done failed : OutboxStatus

-- The JSON texts that the outbox holds, by what they decode to. `other_json` is a text that
-- json.Unmarshal refuses.
pub data Payload : Type 0 where
  version_published : String → String → ℕ → String → ℕ → Payload
  unpublished : String → String → ℕ → Payload
  menu_status : String → Payload
  other_json : String → Payload

pub record OutboxEvent : Type 0 where
  pub id : ℕ
  pub uuid : String
  pub function_id : String
  pub release_id : String
  pub event_type : String
  pub payload : Payload
  pub status : OutboxStatus
  pub attempts : ℕ
  pub next_attempt_at : ℕ
  pub last_error : String
  pub created_at : ℕ
  pub updated_at : ℕ

pub data FunctionStatus : Type 0 where
  draft published : FunctionStatus

pub record Function : Type 0 where
  pub id : ℕ
  pub uuid : String
  pub name : String
  pub status : FunctionStatus
  pub product_session_id : String
  pub technical_session_id : String
  pub generation_session_id : String
  pub generated_app_id : String
  pub active_release_id : String
  pub function_version : ℕ
  pub product_doc_version : ℕ
  pub product_draft_version : ℕ
  pub technical_doc_version : ℕ
  pub technical_draft_version : ℕ
  pub technical_draft_operation_id : String
  pub technical_source_product_version : ℕ
  pub code_version : ℕ
  pub code_draft_version : ℕ
  pub code_draft_operation_id : String
  pub code_source_technical_version : ℕ
  pub menu_parent_id : String
  pub updated_at : ℕ
  pub doc_technical_stale : Bool

pub data OperationState : Type 0 where
  running awaiting_user needs_continue completed blocked cancelled superseded : OperationState

pub data TerminalStatus : Type 0 where
  terminal_none terminal_normal terminal_max_turns terminal_cancelled : TerminalStatus
  terminal_error terminal_submitted : TerminalStatus

pub record ConversationOperation : Type 0 where
  pub id : ℕ
  pub uuid : String
  pub function_id : String
  pub session_id : String
  pub conversation : String
  pub user_id : String
  pub state : OperationState
  pub baseline : List ℕ
  pub terminal_status : TerminalStatus
  pub terminal_reason : String
  pub outcome : String
  pub created_at : ℕ
  pub updated_at : ℕ
  pub finished_at : ℕ

pub record ProgressExecution : Type 0 where
  pub id : ℕ
  pub uuid : String
  pub operation_id : String
  pub tool_name : String
  pub tool_use_id : String
  pub user_id : String
  pub outcome : String
  pub created_at : ℕ
  pub updated_at : ℕ

pub record Tables : Type 0 where
  pub functions : List Function
  pub releases : List FunctionRelease
  pub next_release_id : ℕ
  pub outbox : List OutboxEvent
  pub next_outbox_id : ℕ
  pub operations : List ConversationOperation
  pub next_operation_id : ℕ
  pub executions : List ProgressExecution
  pub next_execution_id : ℕ

-- The calls of other components that took effect.
pub data Effect : Type 0 where
  models_applied : String → Effect
  artifact_promoted : String → String → Effect
  artifacts_loaded : List (String × String) → Effect
  artifacts_reconciled : List String → Effect
  skill_synced : String → String → Effect
  skill_revoked : String → Effect
  event_sent : String → String → Payload → Effect
  menu_deleted : String → Effect
  menu_synced : String → String → String → Effect
  menu_hidden : String → Effect

abbrev pub FuncAction : Type 0 → Type 0
FuncAction = Action Tables Effect
