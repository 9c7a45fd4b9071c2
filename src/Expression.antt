-- ===== src/Expression.antt =====
-- Expressions: src/astreum/expression.
pub mod Number
pub mod Expr
