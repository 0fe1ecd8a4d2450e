-- ===== src/Report.antt =====
-- pkg/report: the record of a drill, and what is read from the records of many.
pub mod Evidence
pub mod Scan
pub mod Gate
pub mod Controls
pub mod Scorecard
pub mod Signature
