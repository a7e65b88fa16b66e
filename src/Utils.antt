-- ===== src/Utils.antt =====
-- DPS-src/utils/.
pub mod Chronometer
