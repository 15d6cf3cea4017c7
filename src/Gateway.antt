-- ===== src/Gateway.antt =====
-- The entry from the browser, inner-gateway/internal: the tickets with which a connection opens
-- (realtime/ticket.go), the check of every request (middleware/auth.go), and the events that are
-- written to the connections (realtime/handler.go).
pub mod Ticket
pub mod Check
pub mod Hub
mod Tests
