-- ===== src/Tests.antt =====
-- Tests on concrete inputs, and the theorems applied at inputs that meet their hypotheses.
mod Queue
mod Sync
mod Event
mod Task
mod Notify
mod Timer
mod Locks
mod Copy
mod Overlay
mod Ble
mod Simd
mod Netlink
mod Returns
mod Radio
mod Connect
