-- ===== src/Delta.antt =====
-- git/delta: computing, writing and resolving binary deltas.
pub mod Instruction
pub mod Reader
pub mod Variable
pub mod Calculator
mod Search
mod Operands
pub mod Deliver
pub mod Resolve
pub mod Calculate
pub mod Ending
pub mod RoundTrip
