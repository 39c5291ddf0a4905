-- ===== src/Am/X86.antt =====
-- The abstract machine for QEMU's x86, abstract-machine/am/src/x86/qemu.
pub mod Boot
pub mod Clock
pub mod Disk
pub mod Gpu
pub mod Keyboard
pub mod Apic
pub mod Devices
pub mod Render
pub mod Spaces
pub mod Gates
pub mod Traps
pub mod Uart
pub mod Paging
mod Tests
