-- ===== src/Drivers.antt =====
-- kernel/drivers: the screen and the buses.
pub mod Font
pub mod Vesa
pub mod Pci
pub mod Ahci
pub mod Bmp
pub mod Keyboard
pub mod Ethernet
