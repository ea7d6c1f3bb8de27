-- ===== src/Ir.antt =====
-- crates/adabt-ir: predicate expressions and their compiled form.
pub mod Truth
pub mod Like
pub mod Expr
pub mod Constraints
pub mod Vm
mod Tests
