-- ===== src/Agent.antt =====
-- toolbox/agent: what the client of a running agent is shown.
pub mod Stream
pub mod Replies
mod Tests
