-- ===== src/Fat.antt =====
-- The bounded FAT32 reader of the Pi 4, src/pi4_fat32.h.
pub mod Volume
pub mod File
pub mod Directory
mod Tests
