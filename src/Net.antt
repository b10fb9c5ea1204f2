-- ===== src/Net.antt =====
-- net.h and net.c, in parts.
pub mod TransportFrame
pub mod NodeFrame
pub mod CommandsFrame
pub mod Untouched
pub mod Frame
pub mod State
pub mod Link
pub mod Route
pub mod Transport
pub mod Conserve
pub mod Invariant
pub mod FwdLaws
pub mod HopLaws
pub mod Commands
pub mod Execute
