-- ===== src/Pwr.antt =====
-- Power-on and power-off of core/pwr.c: the tables, their interpreter and the power switch.
pub mod Tables
pub mod Seq
pub mod Power
