-- ===== src/Mines.antt =====
-- The mines game: src/modules/mines. A round is staked on a board of 25 cells, opens cells one at a
-- time and is paid when it is cashed out. Money and multipliers are in hundredths.
pub mod Board
pub mod Rounds
pub mod Tests
