-- ===== src/Literal.antt =====
-- src/literal.rs: `RewriteError`, results, and `StreamingLiteralRewriter` with its functions.
pub mod Result
pub mod Rewriter
pub mod Validation
pub mod History
pub mod Scan
pub mod Steps
pub mod Loop
pub mod Process
pub mod Contract
pub mod Advance
pub mod Claims
