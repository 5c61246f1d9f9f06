-- ===== src/Tests.antt =====
-- Tests on concrete inputs, and the theorems at concrete inputs.
mod Pages
mod Heaps
mod Memories
mod Schedules
mod Texts
mod Descriptors
mod Devices
mod Locks
mod Controllers
mod Spaces
mod Creation
mod Disks
mod Cores
mod Booting
mod Chips
