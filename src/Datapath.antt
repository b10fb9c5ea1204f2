-- ===== src/Datapath.antt =====
-- datapath.c, in parts: the state, the decoder, the labels of the switch in `execute`, the cases by
-- group, and the cycle that joins them.
pub mod State
pub mod Decode
pub mod Switch
pub mod Alu
pub mod Jumps
pub mod Immediates
pub mod Cops
pub mod Accesses
pub mod Cycle
pub mod Frame
pub mod Words
pub mod CycleLaws
pub mod Stopping
pub mod DecodeLaws
pub mod Stall
pub mod Retry
