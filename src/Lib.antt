-- ===== src/Lib.antt =====
-- The backend of a skin-case and clicker site, its money and its rewards.
--
-- The program is a NestJS server with a PostgreSQL database and Redis. Its modules share the
-- users' balances and, through the VIP programme, the wagers. Modelled are parts in which money,
-- points and experience change:
--
-- Clicker: the four Redis scripts of src/modules/clickerUser/redis, each one atomic step on a
-- user's hash. Clicker/State is the hash; Clicker/Boost, Clicker/Energy and Clicker/Auto are the
-- parts of CLICK_LUA (clicker.lua.ts), which Clicker/Click composes in the script's order;
-- Clicker/Spend has DEDUCT_LUA, CLAIM_AUTO_LUA and ACTIVATE_BOOST_LUA. `click`, `deduct`,
-- `claim_auto` and `activate_boost` are the scripts. Clicker/Spend/History runs them in any order.
-- Vip: src/modules/vip. Vip/Tiers, Vip/Cases, Vip/Periods and Vip/Rewards are
-- vip-rewards.logic.ts, Vip/Earning is vip-earning.logic.ts, Vip/Store is vip.service.ts with the rows
-- it writes, Vip/Service is vip-rewards.service.ts (claimCashback, openVipCase).
-- EarnVault: src/modules/earnVault. EarnVault/Plans is earn-vault.logic.ts, EarnVault/Service is
-- earn-vault.service.ts (createPositionOnce, claimPosition, unstakePosition).
-- Mines: src/modules/mines. Mines/Board is mines-game.logic.ts, Mines/Rounds is mines.service.ts
-- (startGame in balance mode, makeMove, cashout); a round's end records its wager with Vip/Store.
-- Mines/Rounds/Steps makes steps of the calls.
-- Crash: src/modules/crash. Crash is crash-game.logic.ts with cashout and settle of
-- crash.service.ts.
-- CrashLive: src/modules/crashLive. CrashLive is crash-live.logic.ts, CrashLive/Round is the service
-- crash-live.service.ts: `tick`, and the two halves of startWaitingRound.
-- Idempotency: src/core/idempotency/idempotency.service.ts. `begin_run` and `end_run` are the parts of
-- `run` before and after the handler; Idempotency/Refines compares them with a register.
-- Partners: src/modules/partners. Partners is recomputeLevel, updateLevelForAdmin and
-- recordReferralDeposit of partner.service.ts with the rows, Partners/Attach is attachReferralParent
-- and attachAndBump.
-- Payments: src/modules/payments. Payments is skinsback.logic.ts, Payments/Deposits is createDeposit
-- and handleWebhook of skinsback.service.ts; a credit uses the VIP tier of the user and calls
-- `record_referral_deposit` of Partners. Payments/History runs notifications in any order.
-- Withdraw: src/modules/withdraw. Withdraw is withdraw.service.ts with trade-url.parser.ts,
-- Withdraw/Steps makes steps of the calls: a batch that is locked, the purchase of one of its items,
-- the read of a poll and the advance of an object that it has read. Polls are one at a time:
-- the source has no guard against two that overlap.
-- Inventory: src/modules/userInventory. Inventory is userInventory.service.ts (sellSkin,
-- sellSelectedSkins, sellAllSkins, createInventoryFromReward) on the users and on the items that
-- Withdraw shares; Inventory/Steps makes steps of the sales, the withdrawals and the new items.
-- Upgrade: src/modules/upgrade. Upgrade is upgrade-game.logic.ts with performUpgrade of
-- upgrade.service.ts; it takes items of Inventory or the balance, and records its wager with Vip/Store.
-- Giveaways: src/modules/giveaways. Giveaways is giveaways.logic.ts with participate,
-- joinBotParticipants and finalizeExpiredGiveaways of giveaways.service.ts; Giveaways/Steps makes steps
-- of them, and a prize is an item of Inventory.
-- Bonuses: src/modules/userBonuses. Bonuses is claimBonus of userBonus.service.ts; a free case is
-- openCase of Cases, and the clicker's part in a payout of carrots is a parameter.
-- Cases: src/modules/cases. Cases is the lottery and openCase of case.service.ts with
-- validateAndDeductBalance of users.service.ts; Cases/Lottery compares the tickets that are shown with
-- those that are drawn, Cases/Winner draws, Cases/Opening counts the money and the items.
-- Prelude: helpers that the parts share: tests, lists, rounding, the result of a transaction, a table
-- of rows under a key, and JavaScript strings as lists of UTF-16 code units (Prelude/Texts).
--
-- A function keeps its name in the source, in snake case; a function that the source writes inside
-- another one has a comment that says where.
--
-- Conventions and bounds. Money, rake and experience are natural numbers of cents (hundredths),
-- so that rounding a sum to cents is the identity; a product with a rate is an exact fraction,
-- rounded half up as Math.round does (`round_div`), where the source has doubles and
-- Number.EPSILON. The stake of the Earn Vault is the exception: it is normalised in the doubles
-- themselves (Prelude/Doubles). An input number that may be negative or not finite is an
-- `Amount`. Chances are in millionths, those of a paid case and win chances in hundredths of a
-- percent, cashback rates in tenths of a percent, the token bucket in fiftieths of a token, a
-- stake as it is requested in units of 10^-10. The fields of the clicker's hash are natural
-- numbers, as the scripts write them. A moment is in milliseconds since 1970 and an argument of
-- the operation; the dice of a script are a function, and a random number is a fraction u / d. A
-- transaction returns its error or the database that it commits; an error rolls back. Rows are
-- locked, so a transaction is one step; findOne and save by primary key are a lookup and an
-- update of a table of rows. A call that is no transaction (openCase, sellAllSkins) says in its
-- file how it is modelled.
--
-- Fuel. The tick loop of the clicker runs on fuel of one round more than the whole ticks of its
-- window, which is enough for the test that ends it (Clicker/Auto/Bulk, `run_ticks-eq-ticks`).
-- The draw of the mines runs on the list of the numbers that the generator returns, and is
-- `none` if they are used up before there are enough. The month of a day is counted up from 1970
-- on fuel of one round for each day; the digits of a number are written on fuel of one round
-- more than the number, each round dividing it by ten. The exponent of a double is found by at
-- most 1100 doublings, more than there are exponents. All else is structural recursion.
--
-- Not modelled: the other modules (promo codes, the wheel of rewards, authentication,
-- administration), the demo, the seeds and the administration of cases, the opening of the next
-- giveaways, stakes in skins and the start of a crash session, the choice of the bots of a live
-- crash, the reports and payouts of the partners, the diagnostic fields of the scripts' replies,
-- read-only summaries, the delivery of notifications, the flush of Redis into the database, and
-- the framework, the database and Redis themselves.
pub mod Partners
pub mod Payments
pub mod Prelude
pub mod Clicker
pub mod Vip
pub mod Upgrade
pub mod Withdraw
pub mod EarnVault
pub mod Idempotency
pub mod Inventory
pub mod Giveaways
pub mod Bonuses
pub mod Cases
pub mod Mines
pub mod Crash
pub mod CrashLive
