-- ===== src/Payments/Bonus.antt =====
-- The VIP bonus of a deposit.
use rabbit_backend.Prelude.{
  ℕ, ◌+◌, ◌*◌, ◌≤◌, ◌<◌, ◌≡◌, ◌⊎◌, inl, inr, refl, min, leb, ltb, Bool-cases, arith,
}
use rabbit_backend.Prelude.Money.{Amount, round_div}
use rabbit_backend.Vip.Tiers.{get_vip_tier_for_xp, Tier}
use rabbit_backend.Vip.Store.{xp_or_volume}
use rabbit_backend.Partners.{Account}
use rabbit_backend.Payments.Deposits.{calculate_vip_deposit_bonus}

abbrev pub tier_of : Account → Tier
tier_of user =
    get_vip_tier_for_xp (Amount.at_least_zero (xp_or_volume user.vip_xp user.vip_qualifying_volume))

-- The rounded share, as far as the cap
capped_share :
    (share cap : ℕ)
    → let bonus = round_div (min share (cap * 100)) 100 in
      (bonus ≤ cap)
      × (((bonus ≡ cap) × (100 * cap ≤ share))
          ⊎ ((100 * bonus ≤ share + 50) × (share < 100 * bonus + 50)))
unfolding round_div
capped_share share cap = elim (Bool-cases (leb (cap * 100) share)) [
  | inl over ↦
      let m : min share (cap * 100) ≡ cap * 100 = grind arith in
      rw m (omega arith, inl (omega arith, omega arith))
  | inr under ↦
      let m : min share (cap * 100) ≡ share = grind arith in
      rw m (omega arith, inr (omega arith, omega arith))
]

-- The VIP bonus of a deposit is never above the cap of the user's tier. It is zero for a deposit under
-- the least amount of the tier, for one of nothing and for a tier without a rate; else it is the cap,
-- where the tier's percentage comes to that, or the percentage, off by at most half a cent.
pub calculate_vip_deposit_bonus_bounds :
    (user : Account) (amount : ℕ)
    → let tier = tier_of user in
      let bonus = calculate_vip_deposit_bonus user amount in
      let share = amount * tier.deposit_bonus_rate in
      (bonus ≤ tier.deposit_bonus_cap)
      × (((bonus ≡ 0)
            × ((tier.deposit_bonus_rate ≡ 0) ⊎ ((amount < tier.deposit_min_amount) ⊎ (amount ≡ 0))))
          ⊎ (((bonus ≡ tier.deposit_bonus_cap) × (100 * tier.deposit_bonus_cap ≤ share))
              ⊎ ((100 * bonus ≤ share + 50) × (share < 100 * bonus + 50))))
unfolding calculate_vip_deposit_bonus
calculate_vip_deposit_bonus_bounds user amount =
    let tier = tier_of user in
    let (cap, share) = capped_share (amount * tier.deposit_bonus_rate) tier.deposit_bonus_cap in
    elim (Bool-cases (leb tier.deposit_bonus_rate 0)) [
      | inl flat ↦ rw flat (omega arith, inl (refl, inl (ground arith)))
      | inr rated ↦ elim (Bool-cases (ltb amount tier.deposit_min_amount)) [
        | inl small ↦ rw (rated, small) (omega arith, inl (refl, inr (inl (ground arith))))
        | inr enough ↦ elim (Bool-cases (leb amount 0)) [
          | inl nothing ↦
              rw (rated, enough, nothing) (omega arith, inl (refl, inr (inr (ground arith))))
          | inr positive ↦ rw (rated, enough, positive) (cap, inr share)
        ]
      ]
    ]
