-- ===== src/Opt.antt =====
-- crates/adabt-opt: the registry of optimizations, and experiments on them.
pub mod Registry
pub mod Experiment
