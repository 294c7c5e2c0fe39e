-- ===== src/TxQueue.antt =====
-- src/cyw43455/tx_types.h and src/cyw43455/tx_queue.h: the pending-send queue of the driver, with
-- its active window, its backlog, and the completions handed back to NDIS.
pub mod State
pub mod Admission
pub mod Release
pub mod Items
pub mod Preparation
pub mod Invariant
pub mod Promotion
pub mod Removal
pub mod Cancellation
pub mod World
pub mod Line
pub mod Ownership
pub mod Handover
pub mod Schedules
pub mod Flush
pub mod Pump
pub mod Send
pub mod Completion
pub mod Flushing
pub mod Flushed
pub mod PumpBudget
mod Tests
