-- ===== src/Reference.antt =====
-- services/reference_match.py: which measured devices are in a reference, and what changed.
pub mod Candidate
pub mod Match
pub mod Best
pub mod Annotate
pub mod Free
pub mod Totals
mod Tests
