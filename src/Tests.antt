-- ===== src/Tests.antt =====
-- The theorems at concrete inputs that meet their hypotheses, and runs of the code.
mod Signals
mod State
mod Diag
mod Can
mod Filters
mod Control
mod Storage
mod Console
mod Ble
mod Rpc
mod Power
mod Ota
mod Startup
mod RxTask
mod Request
