-- ===== src/Execution.antt =====
-- backend/src/polycopy/execution/service.py: signals, paper execution and paper settlement. The
-- children hold the rows (Store), the gates in front of the order book (Gates), the fill (Trade),
-- one attempt (Handlers), the detection (Signals), the settlement (Settle) and the cycle (Cycle). The
-- other children are about what these do.
pub mod Store
pub mod Gates
pub mod Outcomes
pub mod Trade
pub mod Handlers
pub mod Signals
pub mod Detection
pub mod Settle
pub mod Columns
pub mod Settled
pub mod Resolved
pub mod Cycle
pub mod Safety
pub mod Books
pub mod Rounds
pub mod Counts
mod Tests
