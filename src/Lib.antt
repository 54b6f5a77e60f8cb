-- ===== src/Lib.antt =====
-- The paper-trading core of Poly2, a copy-trading bot for prediction markets. It ingests the trades of
-- wallets, detects those of approved ones, executes them on paper against the order book, keeps
-- positions and a bankroll, settles resolved markets, scores wallets, and routes them through a human
-- approval.
--
-- Parts, with paths from the repository's root:
-- Prelude: the tests, lists, integers and association lists that the other modules share.
-- Decimals: counts in the place of Python's decimals, and the quotient of two decimals.
-- Bookwalk: backend/src/polycopy/execution/bookwalk.py, walk_book.
-- Fees: backend/src/polycopy/execution/fees.py, MarketFee.
-- Bankroll: backend/src/polycopy/bankroll.py, and update_bankroll_settings of
--   backend/src/polycopy/api/routes.py.
-- Execution: backend/src/polycopy/execution/service.py. Store holds the rows and the settings; Gates,
--   Trade and Handlers are execute_signal in the order of its code; Signals is detect_signals, Settle
--   is settle_paper_positions, Columns is what a commit keeps and Cycle is run_execution_cycle. It calls Bookwalk for the fill, Fees for
--   the fee, and Bankroll for each realized amount and for the sweep at the end of a cycle.
-- Pnl: backend/src/polycopy/accounting/pnl.py, the accounting of source wallets.
-- Accounting: backend/src/polycopy/accounting/service.py, which gives Pnl the legs of each market.
-- Settlements: backend/src/polycopy/accounting/settlements.py, detect_winning_outcome and
--   refresh_settlements; its settlement rows are what Settle joins to positions.
-- Scoring: backend/src/polycopy/scoring/score.py, the gates, the share of the best market and the verdict, which Approval routes.
-- Approval: transition_wallet of backend/src/polycopy/api/routes.py and _apply_verdict of
--   backend/src/polycopy/scoring/service.py; the approval state and its time are what Gates checks.
-- Ingestion: backend/src/polycopy/ingestion. Identity is identity.py; Rows is ingest_trade_rows of
--   service.py, whose trades are what detect_signals reads; Bootstrap is bootstrap_wallet_history of
--   service.py, with its loop in Turn and the code around it in Backfill; Catchup is catchup.py; Client
--   is the retries of _get and the identity of markets of client.py, with the lookup of Settlements.
-- Journal: DiskMap and JournalSequence of
--   backend/src/polycopy/_shadow_protocol/bounded_journal.py.
-- Daemon: backend/src/polycopy/bot/daemon.py, the loop that runs the cycles; its heartbeats are what
--   Watchdog reads.
-- Throttle: backend/src/polycopy/failure_throttle.py. Watchdog: backend/src/polycopy/watchdog.py.
--
-- State is passed explicitly: a handler takes the rows and returns the new ones, and an exception is a
-- value. A failed attempt leaves the committed rows, as a rollback does. Time, the venue's answers, the
-- ids of new rows, the quotient and the power of decimals are arguments, and so is the rounding of the
-- database's columns, which Execution/Columns applies at a commit. Shares, prices and money are natural
-- or signed counts of fixed units, so that products and sums are exact, where Python rounds them to 28
-- digits. The client and the database that
-- the bootstrap and the catch-up call are interfaces; the laws that the bootstrap asks of ingestion are
-- a theorem of Ingestion/Written. Loops are recursion on lists and on the budget of a cycle; the loop of
-- the bootstrap has fuel, one turn more than the pages of a run, and each of its turns takes a page.
--
-- Not modelled: HTTP itself, the database driver and the log output, which are I/O; the loop of an
-- ingestion cycle over the wallets, the evidence report, and the shadow protocol but for its journal;
-- the binary floating point of the score's components, whose composite is an argument; the columns
-- that repeat operands or hold snapshots for display. Concurrent transactions appear only as the row
-- locks and unique keys that make a handler one step.
pub mod Prelude
pub mod Throttle
pub mod Watchdog
pub mod Decimals
pub mod Bookwalk
pub mod Pnl
pub mod Bankroll
pub mod Fees
pub mod Execution
pub mod Accounting
pub mod Daemon
pub mod Ingestion
pub mod Journal
pub mod Approval
pub mod Settlements
pub mod Scoring
