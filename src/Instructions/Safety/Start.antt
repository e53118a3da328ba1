-- ===== src/Instructions/Safety/Start.antt =====
-- memory.py and core/code.py: the memory of `from_pc` and the registers of `regs_from_pc`.
