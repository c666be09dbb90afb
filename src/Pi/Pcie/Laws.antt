-- ===== src/Pi/Pcie/Laws.antt =====
-- A planned configuration read of src/pi4_pcie_cfg.h stays in its window and names one function.
