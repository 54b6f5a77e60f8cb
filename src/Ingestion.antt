-- ===== src/Ingestion.antt =====
-- backend/src/polycopy/ingestion: the identity of a source trade (Identity), the rows of a page (Rows),
-- and what is proved of them.
pub mod Identity
pub mod Split
pub mod Rows
pub mod Keys
pub mod Written
pub mod Replay
pub mod Bootstrap
pub mod Catchup
pub mod Client
mod Tests
