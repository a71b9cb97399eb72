-- ===== src/Handler.antt =====
-- src/handler: the requests that wait for an answer.
pub mod RequestCall
pub mod ActiveRequests
