-- ===== src/Clicker.antt =====
-- The clicker engine: the Redis scripts of src/modules/clickerUser/redis, each one atomic step on
-- a user's hash. `State` is the hash, `Boost`, `Energy` and `Auto` are the parts of CLICK_LUA,
-- `Click` the script, `Spend` the three other scripts; the rest are proofs.
pub mod State
pub mod Boost
pub mod Energy
pub mod Auto
pub mod Click
pub mod Spend
pub mod Tests
