-- ===== src/Tests.antt =====
-- The models at concrete inputs.
mod CString
mod Sort
mod Printf
mod Report
mod Traps
mod Domid
mod Console
mod Msr
mod Grant
mod Apic
mod Xenstored
mod Xenbus
mod Consoled
mod Devices
mod Platform
mod Suite
