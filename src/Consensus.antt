-- ===== src/Consensus.antt =====
-- The consensus part of the library: src/astreum/consensus.
pub mod Fees
pub mod Loan
pub mod RateWindow
pub mod Channel
pub mod Codes
pub mod Difficulty
pub mod Ledger
pub mod Treasury
pub mod Apply
