-- ===== src/Expression.antt =====
-- src/literal.rs: `StreamingExpressionPatternRewriter`. Cursors into `pending` are the slices that
-- begin there, as in the literal rewriter.
pub mod Scanner
pub mod Process
