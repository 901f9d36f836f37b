-- ===== src/EarnVault.antt =====
-- The Earn Vault: src/modules/earnVault. A user stakes money in a plan and claims it with a reward
-- at maturity, or takes it back early without one. Money is in cents, time in milliseconds.
pub mod Plans
pub mod Service
pub mod Tests
