-- ===== src/Machine/Operators.antt =====
-- The operators of the machine: src/astreum/machine/operators.
pub mod Result
pub mod Stack
pub mod Arithmetic
pub mod Comparison
pub mod Bytes
pub mod Sequence
pub mod Expression
pub mod Flow
pub mod Tag
pub mod Steps
