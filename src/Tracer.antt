-- ===== src/Tracer.antt =====
-- src/tracer/trace.rs: the single-step engine. The definitions are in `Annotation`, `Memory`,
-- `Registers` and `Step`, what is proved of them in the other modules.
pub mod Annotation
pub mod Memory
pub mod Registers
pub mod Step
pub mod Diff
pub mod Depth
pub mod Signals
pub mod Classify
pub mod Effects
pub mod Resumed
pub mod Noted
pub mod Trace
pub mod Dense
pub mod History
pub mod Bounds
pub mod Before
pub mod Observed
