-- ===== src/Radio.antt =====
-- radio_firmware/radio_stack.c: the glue between Linux and the vendor's Wi-Fi and Bluetooth drivers.
pub mod Driver
pub mod Config
pub mod Capture
pub mod Station
pub mod Init
pub mod Frames
