-- ===== src/Engine.antt =====
-- crates/adabt-engine: the parts of the database engine.
pub mod ExprCodec
pub mod Unique
