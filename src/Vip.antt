-- ===== src/Vip.antt =====
-- The VIP programme: src/modules/vip. Money, rake and experience are counted in hundredths.
pub mod Tiers
pub mod Earning
pub mod Cases
pub mod Periods
pub mod Rewards
pub mod Store
pub mod Service
pub mod Tests
