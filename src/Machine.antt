-- ===== src/Machine.antt =====
-- The machine that evaluates expressions: src/astreum/machine.
pub mod Meter
pub mod Vm
pub mod Operators
pub mod Evaluator
