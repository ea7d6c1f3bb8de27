-- ===== src/Telemetry.antt =====
-- crates/adabt-telemetry: what the engine measures of itself.
pub mod Histogram
pub mod Sketch
