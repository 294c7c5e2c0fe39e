-- ===== src/Lib.antt =====
-- The driver of the CYW43455 radio of the Raspberry Pi 5 for Windows on ARM64, whose code is in
-- src/ of the repository: NDIS hands lists of net buffers to a pending-send queue, one worker
-- thread sends them over SDIO within the credits of the firmware, and the interrupt and mailbox
-- service of the same worker tells when sending must stop.
--
-- Which file models which part:
--   Prelude           Boolean tests, lists, machine words and bit operations that the rest shares.
--   TxQueue           src/cyw43455/tx_types.h and src/cyw43455/tx_queue.h.
--     State           CYW_PENDING_SEND, CYW_TX_STATE and the counters of the adapter.
--     Admission       CywTxPrepare, CywTxActivateLocked, CywTxBacklogLocked and
--                     CywTxSubmitWithBacklog.
--     Release         CywTxSetGate, CywTxOutstanding, CywTxCancel, CywTxRemove,
--                     CywTxBacklogRemove, CywTxPromoteOneLocked, CywTxComplete,
--                     CywTxCompleteBacklog and CywTxAbortStatus.
--     Flush           CywTxFlush.
--     Pump, Send      CywTxPump: the cleanup of aborted lists, and the sending loop.
--     World           the critical sections as the events of a schedule: any thread may submit,
--                     cancel or change the gate between two sections of the worker.
--     the others      the lemmas of these parts, named for what they prove.
--   Retry             src/cyw43455/tx_retry.h, the wait of the worker after exhausted credit.
--   Sdio              src/sdio/sdio_protocol.h: command arguments, responses, the clock divider and
--                     the high-speed conditions.
--   Erom              src/cyw43455/erom.h, the decoder of the core enumeration ROM over a word
--                     reader.
--   Wire              src/cyw43455/network_protocol.h: numbers in memory, the SDPCM and BCDC
--                     headers, and the credit window.
--   Nvram             CywPackNvram of the same file.
--   Country           the country requests and the connect request of the same file.
--   Filter            CywAcceptEthernet of the same file.
--   Interrupts        src/driver/interrupt_policy.h, and below it Rearm for Rpi5CywInterruptRearm of
--                     src/driver/driver.c: when the worker polls instead.
--   Superframe        src/cyw43455/rx_performance.h: the descriptor of a received superframe, and
--                     the validation of its frames.
--   Transport         src/cyw43455/transport_protocol.h, and below it Service for
--                     src/cyw43455/transport_service.h.
--   Trace             src/cyw43455/transport_trace.h, the ring of the last observations, whose array
--                     is a function of the slot.
--   Task              the code that ends with an NTSTATUS as a state monad with failures.
--   Host              src/sdio/sdio.c on the record of src/driver/driver.h, and the headers that it
--                     includes.
--     Registers       the record RPI5CYW_ADAPTER, the device below it, and the register accesses.
--     Commands        SdioResetHost, SdioSetClock, SdioSetPower, SdioCommand and what they call.
--     Reads, Bytes    the single reads and writes, and SdioFifoTransfer.
--     BusMode         src/sdio/bus_mode.h: the default bus, its recoveries, the high-speed mode and
--                     the negotiation.
--     Fifo            src/sdio/fifo_blocks.h: the wait with its deadline, and the block transfer.
--     Initialize      the start of the host and of the card.
--   Scan              src/cyw43455/scan_protocol.h: the parser of a result and its security classes.
--     Table           CywScanAdd, the table of the networks.
--     Events          CywScanEvent of src/cyw43455/scan_sequence.h.
--   Mailbox           src/driver/diag_mailbox.h, the two buffers of the diagnostics, and the loop of
--                     src/cyw43455/diagnostics_worker.h that empties them.
--   Snapshot          src/driver/diag_snapshot.h, and Rpi5CywWriteDiagnosticBuffer of
--                     src/driver/driver.c.
--
-- How the code is read: ULONG arithmetic wraps at 2^32 and ULONG64 arithmetic at 2^64, written out
-- in Prelude/Words. The arrays Entries[0..Count) and Backlog[0..BacklogCount) are lists, so Count
-- and BacklogCount are their lengths. A net buffer list is known by a number and a net buffer by its
-- data length. KeQueryInterruptTime is a function of the number of the call. Spin locks are the
-- borders between the events of a schedule. The bus functions and the mapping of a net buffer are
-- arguments of the functions that use them. Below Host, the hardware and the kernel are a record of
-- operations on a state of any type: a look at IoStopped, the reads and writes of registers, stalls,
-- delays and the time; an NTSTATUS that is a failure is an outcome of Task. That the adapter and its
-- registers are there and that the caller runs at PASSIVE_LEVEL is taken from the callers. In Scan,
-- memory is a function with a size, and a read outside the size is a fault. In Mailbox, a step of a
-- thread is one interlocked operation with the change of the index that only this thread uses.
--
-- Fuel: the loops over CywTxPromoteOneLocked take the length of the backlog, which each round
-- shortens; CywTxFlush takes the number of held lists, one of which each round returns; the sending
-- loop takes the budget and one more, and each round that goes on has sent a frame. The decoder of
-- the ROM has the 512 rounds of the source, and the divider loop its 1022 divisors. The NVRAM loop
-- takes the length of the file, and each round takes a byte at least. The polls of the host
-- have the bounds of the source: 1000 for a reset, 2000 for the clock, 10000 for an inhibit and for a
-- command, 254 for the wait of a block transfer. SdioFifoTransfer takes the length, of which each
-- round moves a byte at least. The walk over information elements takes one round more than the
-- number of bytes, of which each round takes two. The loops over a snapshot take one round more than
-- its bytes, of which each value has 24 at least.
--
-- Not modelled: the build variants that the default build leaves out (RPI5CYW_TX_GLOM2 and the
-- host-test admission), packet contents, the CMD5 cycles, the enumeration of SDIO
-- functions and the timing wrappers of src/sdio/sdio.c, the packet kinds of
-- src/cyw43455/network_protocol.h, the request builders and the radio sequence of the scan,
-- the connection and control code, the interrupt service routine and the NDIS glue of src/driver, and the tools of the other
-- languages.
pub mod Prelude
pub mod Country
pub mod Erom
pub mod Filter
pub mod Host
pub mod Interrupts
pub mod Mailbox
pub mod Nvram
pub mod Retry
pub mod Scan
pub mod Sdio
pub mod Snapshot
pub mod Superframe
pub mod Task
pub mod Trace
pub mod Transport
pub mod TxQueue
pub mod Wire
