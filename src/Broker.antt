-- ===== src/Broker.antt =====
-- The brokers of ai-agent/internal/logic that hold a tool call until the user has answered:
-- tool_permission.go and ask_user_question.go.
pub mod State
pub mod Permission
pub mod Safety
pub mod Question
mod Tests
