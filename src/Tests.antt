-- ===== src/Tests.antt =====
-- Runs of the modelled functions on concrete inputs, by the part of the program.
mod Packets
mod Routes
mod Handshakes
mod Sessions
mod Cookies
mod Devices
mod Wire
mod Workers
mod Settings
mod Kernel
mod Network
mod Delivery
