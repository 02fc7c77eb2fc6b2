-- ===== src/Scan.antt =====
-- core/scan.c: the received beacons and probe responses become the list of networks.
pub mod Nets
pub mod Parse
pub mod Target
