-- ===== src/Rtos.antt =====
-- radio_firmware/s31_rtos: the FreeRTOS ABI shim over the Linux bridge.
pub mod Ledger
pub mod Wait
pub mod Queue
pub mod Mutex
pub mod Semaphore
pub mod Event
pub mod Task
pub mod Notify
pub mod Returns
