-- ===== src/FuncOp/Tests.antt =====
-- Concrete inputs for the theorems about func-operation.
mod Releases
mod Events
mod Operations
use ai_dandelion.Base.{ℕ, String, Option, none, List, [], ◌∷◌, false}
use ai_dandelion.Db.{World, ok}
use ai_dandelion.FuncOp.Model.{
  Function, FunctionStatus, FunctionRelease, staged, OutboxEvent, pending, version_published,
  ConversationOperation, needs_continue, terminal_max_turns, Tables, Effect,
}
use ai_dandelion.FuncOp.Publishing.{Services}

abbrev pub orders : Function
orders = record {
  id = 1;
  uuid = "f1";
  name = "Orders";
  status = FunctionStatus.draft;
  product_session_id = "s1";
  technical_session_id = "s2";
  generation_session_id = "s3";
  generated_app_id = "app";
  active_release_id = "";
  function_version = 3;
  product_doc_version = 1;
  product_draft_version = 1;
  technical_doc_version = 2;
  technical_draft_version = 2;
  technical_draft_operation_id = "";
  technical_source_product_version = 1;
  code_version = 3;
  code_draft_version = 3;
  code_draft_operation_id = "";
  code_source_technical_version = 2;
  menu_parent_id = "";
  updated_at = 10;
  doc_technical_stale = false;
}

abbrev pub first_release : FunctionRelease
first_release = record {
  id = 1;
  uuid = "r1";
  function_id = "f1";
  app_id = "app";
  version = 1;
  artifact_sha256 = "aa";
  manifest_json = "{}";
  status = staged;
  created_by = "u1";
  created_at = 5;
  published_at = 0;
  updated_at = 5;
}

abbrev pub waiting_event : OutboxEvent
waiting_event = record {
  id = 1;
  uuid = "e1";
  function_id = "f1";
  release_id = "r1";
  event_type = "func-operation.function.version-published";
  payload = version_published " f1 " "Orders" 1 "r1" 5;
  status = pending;
  attempts = 0;
  next_attempt_at = 0;
  last_error = "";
  created_at = 5;
  updated_at = 5;
}

abbrev pub paused : ConversationOperation
paused = record {
  id = 1;
  uuid = "o1";
  function_id = "f1";
  session_id = "s2";
  conversation = "technical";
  user_id = "u1";
  state = needs_continue;
  baseline = [];
  terminal_status = terminal_max_turns;
  terminal_reason = "";
  outcome = "";
  created_at = 4;
  updated_at = 6;
  finished_at = 6;
}

abbrev pub sample : Tables
sample = record {
  functions = orders ∷ [];
  releases = first_release ∷ [];
  next_release_id = 2;
  outbox = waiting_event ∷ [];
  next_outbox_id = 2;
  operations = paused ∷ [];
  next_operation_id = 2;
  executions = [];
  next_execution_id = 1;
}

-- No call fails.
abbrev pub calm : World Tables Effect
calm = record { tables = sample; calls = 0; faults = λ n. none; log = [] }
