-- ===== src/Efuse.antt =====
-- core/efuse.c: the dump of the physical EFUSE over the registers, the run-length decoding of
-- the logical map, and the fields that the driver takes from it.
pub mod Decode
pub mod Dump
pub mod Fields
