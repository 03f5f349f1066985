-- ===== src/Infracost.antt =====
-- cost/infracost/parser.py: from Infracost's JSON output to a cost estimate.
pub mod Parsed
pub mod V2
pub mod V010
pub mod Estimate
pub mod Parts
pub mod Keys
pub mod Totals
