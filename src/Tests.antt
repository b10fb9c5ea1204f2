-- ===== src/Tests.antt =====
-- Runs of the model on small inputs, and the theorems at inputs that meet their hypotheses.
mod BusTests
mod MemTests
mod RouteTests
mod TransportTests
mod SimTests
mod SafetyTests
mod MainTests
mod DstbTests
mod CommandTests
mod DecodeTests
mod IsaTests
mod ExampleTests
