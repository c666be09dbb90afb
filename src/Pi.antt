-- ===== src/Pi.antt =====
-- Plans that the Pi 4 bring-up makes before it touches a register: src/pi4_pcie_cfg.h,
-- src/pi4_desktop_fb.h and src/pi4_dma.h.
pub mod Dma
pub mod Pcie
pub mod Desktop
mod Tests
