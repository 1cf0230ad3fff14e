-- ===== src/Examples.antt =====
-- Each theorem of the results at one concrete input: ten players, a session, a ready check.
pub mod Fixtures
pub mod Queueing
pub mod Extracting
pub mod Sessions
pub mod ReadyChecks
pub mod Streams
pub mod Systems
pub mod Progressing
pub mod Clients
