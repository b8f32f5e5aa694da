-- ===== src/Assessment.antt =====
-- endure/assessment: what a forecast is about.
pub mod Coordinates
