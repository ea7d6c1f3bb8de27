-- ===== src/Core.antt =====
-- crates/adabt-core: the logical vocabulary that every other crate is written against.
pub mod Value
pub mod Float
pub mod FloatTests
pub mod Order
pub mod Arith
pub mod Names
pub mod Record
mod Tests
