-- ===== src/Usb.antt =====
-- Boot reports of USB keyboards.
pub mod Keyboard
mod Tests
