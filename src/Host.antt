-- ===== src/Host.antt =====
-- src/sdio/sdio.c: the SD host controller, as registers that a device answers, and the commands
-- that the driver sends through it.
pub mod Registers
pub mod Commands
pub mod BusMode
pub mod Reads
pub mod Fifo
pub mod Initialize
pub mod Bytes
mod Tests
