-- ===== src/Ir/Vm.antt =====
-- crates/adabt-ir/src/vm.rs: predicates compiled to a flat program, and the machine that runs it.
pub mod Program
pub mod Compile
pub mod Machine
pub mod Reach
pub mod Emits
pub mod Values
pub mod Items
pub mod Folds
pub mod Parts
pub mod Jumps
pub mod Leaves
pub mod Turns
pub mod Correct
pub mod Agree
mod Tests
