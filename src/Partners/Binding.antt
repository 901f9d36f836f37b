-- ===== src/Partners/Binding.antt =====
-- A user is bound to one partner, once.
use rabbit_backend.Prelude.{
  ℕ, ◌+◌, ◌≡◌, refl, ap, ◌∙◌, sym, ◌≢◌, ◌⊎◌, inl, inr, Bool, true, false, Option, none, some, List,
  [], ◌∷◌, map, ◌>>=◌, ◌==◌, if◌then◌else◌, Result, ok, err, Bool-cases, Option-cases, arith,
}
use rabbit_backend.Prelude.Table.{find_row, save_row, find_row-save_row, total, total-save_row_over}
use rabbit_backend.Prelude.Texts.{Text}
use rabbit_backend.Partners.{Account, PartnerDb}
use rabbit_backend.Partners.Attach.{
  AttachInput, AttachError, code_owner, bound_account, resolve_campaign, attach_referral_parent,
  bump_uses, attach_and_bump,
}

-- What an accepted request does to the users: nothing, or it binds one that was free to another user.
pub Attached : ℕ → Bool → PartnerDb → PartnerDb → Type 0
Attached uid false db after = after.users ≡ db.users
Attached uid true db after =
    (parent : ℕ) × (user : Account) × (bound : Account) × (parent ≢ uid)
    × (find_row uid db.users ≡ some user)
    × (user.referral_parent_id ≡ none)
    × (bound.referral_parent_id ≡ some parent)
    × (bound.balance ≡ user.balance)
    × (after.users ≡ save_row uid bound db.users)

-- The same of a reply; an error changes nothing.
pub Replied : ℕ → PartnerDb → Result AttachError (Bool × PartnerDb) → Type 0
Replied uid db (err _) = Unit
Replied uid db (ok (attached, after)) = Attached uid attached db after

-- Calls of `attachAndBump`, each with its user and moment: the replies, and the rows at the end. A
-- refused call leaves the rows as they are.
abbrev pub Call : Type 0
Call = ℕ × AttachInput × ℕ

abbrev pub reply_of : Result AttachError (Bool × PartnerDb) → Bool
reply_of (ok (attached, _)) = attached
reply_of (err _) = false

abbrev pub rows_after : PartnerDb → Result AttachError (Bool × PartnerDb) → PartnerDb
rows_after db (ok (_, after)) = after
rows_after db (err _) = db

module _ (upper lower : Text → Text) where
  attach_referral_parent-Replied :
      (uid : ℕ) (input : AttachInput) (now : ℕ) (db : PartnerDb)
      → Replied uid db (attach_referral_parent upper lower uid input now db)
  unfolding attach_referral_parent Attached Replied
  attach_referral_parent-Replied uid input now db =
      elim (Option-cases (code_owner upper input.code db.promo_codes)) [
        | inl unknown ↦ rw (unknown, Replied) refl
        | inr (parent, owner) ↦ elim (Bool-cases (parent == uid)) [
          | inl own ↦ rw (owner, own, Replied) tt
          | inr other ↦ elim (Option-cases (find_row uid db.users)) [
            | inl missing ↦ rw (owner, other, missing, Replied) tt
            | inr (user, row) ↦ elim (Option-cases user.referral_parent_id) [
              | inr (_, bound) ↦ rw (owner, other, row, bound, Replied) tt
              | inl free ↦
                  let campaign = resolve_campaign lower parent input.campaign db.campaigns in
                  rw (owner, other, row, free, Replied)
                    (
                      parent,
                      user,
                      bound_account parent campaign input user,
                      ground arith,
                      row,
                      free,
                      refl,
                      refl,
                      refl,
                    )
            ]
          ]
        ]
      ]

  -- The uses of a code are apart from the users.
  pub attach_and_bump-Replied :
      (uid : ℕ) (input : AttachInput) (now : ℕ) (db : PartnerDb)
      → Replied uid db (attach_and_bump upper lower uid input now db)
  unfolding attach_and_bump Attached Replied
  attach_and_bump-Replied uid input now db =
      with_bump (attach_referral_parent upper lower uid input now db)
        (attach_referral_parent-Replied uid input now db)
    where
      with_bump :
          (r : Result AttachError (Bool × PartnerDb))
          → Replied uid db r
          → Replied uid db (
              r >>= λ (attached, bound). ok (
                attached,
                if attached
                    then record bound {
                      promo_codes = map (bump_uses upper lower input.code) bound.promo_codes;
                    }
                    else bound,
              ))
      with_bump (err _) h = tt
      with_bump (ok (false, _)) h = h
      with_bump (ok (true, _)) h = h

  unfoldable pub run_attach : List Call → PartnerDb → List Bool × PartnerDb
  run_attach [] db = ([], db)
  run_attach ((uid, input, now) ∷ calls) db =
      let r = attach_and_bump upper lower uid input now db in
      let (replies, last) = run_attach calls (rows_after db r) in (reply_of r ∷ replies, last)

abbrev pub is_bound : Account → ℕ
is_bound u = elim u.referral_parent_id [ none ↦ 0 | some _ ↦ 1 ]

abbrev pub count_true : List Bool → ℕ
count_true [] = 0
count_true (b ∷ bs) = (if b then 1 else 0) + count_true bs

abbrev pub partner_in : Option Account → Option ℕ
partner_in none = none
partner_in (some u) = u.referral_parent_id

-- The partner of a user, if there is one
abbrev pub partner_of_user : ℕ → PartnerDb → Option ℕ
partner_of_user uid db = partner_in (find_row uid db.users)

-- No user is their own partner.
abbrev pub NoOwnPartner : PartnerDb → Type 0
NoOwnPartner db = (uid : ℕ) → partner_of_user uid db ≢ some uid

-- Only a user without a partner may have another one later.
abbrev pub KeepsBindings : PartnerDb → PartnerDb → Type 0
KeepsBindings db after =
    (uid : ℕ)
    → (partner_of_user uid db ≡ none) ⊎ (partner_of_user uid after ≡ partner_of_user uid db)

pub Bound : ℕ → PartnerDb → PartnerDb → Type 0
Bound replies db after =
    NoOwnPartner after
    × KeepsBindings db after
    × (total is_bound after.users ≡ total is_bound db.users + replies)

Attached-Bound :
    (uid : ℕ) (attached : Bool) (db after : PartnerDb)
    → NoOwnPartner db
    → Attached uid attached db after
    → Bound (if attached then 1 else 0) db after
unfolding Attached Bound
Attached-Bound uid false db after sound same = (
  λ j own. sound j (ap (λ t. partner_in (find_row j t)) (sym same) ∙ own),
  λ j. inr (ap (λ t. partner_in (find_row j t)) same),
  ap (total is_bound) same ∙ omega arith,
)
Attached-Bound uid true db after sound (parent, user, bound, other, row, free, binding, _, saved) =
    let later : (j : ℕ)
        → partner_of_user j after ≡ partner_in (find_row j (save_row uid bound db.users)) =
      λ j. ap (λ t. partner_in (find_row j t)) saved in
    (
      λ j own. elim (find_row-save_row j uid bound db.users) [
        | inl (same, hit) ↦
            let this : some parent ≡ some j =
              sym binding ∙ sym (ap partner_in hit) ∙ sym (later j) ∙ own in
            other (ground arith)
        | inr (_, kept) ↦ sound j (sym (ap partner_in kept) ∙ sym (later j) ∙ own)
      ],
      λ j. elim (find_row-save_row j uid bound db.users) [
        | inl (same, _) ↦
            inl (ap (λ i. partner_in (find_row i db.users)) same ∙ ap partner_in row ∙ free)
        | inr (_, kept) ↦ inr (later j ∙ ap partner_in kept)
      ],
      (let traded = total-save_row_over is_bound uid bound user db.users row in
          let before : is_bound user ≡ 0 = rw free refl in
          let now : is_bound bound ≡ 1 = rw binding refl in
          ap (total is_bound) saved ∙ omega arith),
    )

Bound-trans :
    (m n : ℕ) (first middle last : PartnerDb)
    → Bound m first middle
    → Bound n middle last
    → Bound (m + n) first last
unfolding Bound
Bound-trans m n first middle last (_, kept, counted) (sound, kept', counted') = (
  sound,
  λ j. elim (kept j) [
    | inl free ↦ inl free
    | inr same ↦ elim (kept' j) [
      | inl free ↦ inl (sym same ∙ free)
      | inr same' ↦ inr (same' ∙ same)
    ]
  ],
  omega arith,
)

module _ (upper lower : Text → Text) where
  Replied-Bound :
      (uid : ℕ) (db : PartnerDb) (r : Result AttachError (Bool × PartnerDb))
      → NoOwnPartner db
      → Replied uid db r
      → Bound (if reply_of r then 1 else 0) db (rows_after db r)
  unfolding Replied Attached
  Replied-Bound uid db (err _) sound h = Attached-Bound uid false db db sound refl
  Replied-Bound uid db (ok (attached, after)) sound h = Attached-Bound uid attached db after sound h

  -- Requests to bind users by referral codes, in any order, from rows in which no user is their own
  -- partner: still none is; a user who has a partner keeps that one; and the number of users with a
  -- partner grows by exactly the number of requests that are answered with true.
  pub run_attach-Bound :
      (calls : List Call) (db : PartnerDb)
      → NoOwnPartner db
      → let (replies, last) = run_attach upper lower calls db in Bound (count_true replies) db last
  unfolding run_attach Bound
  run_attach-Bound [] db sound = (sound, λ _. inr refl, omega arith)
  run_attach-Bound ((uid, input, now) ∷ calls) db sound =
      let r = attach_and_bump upper lower uid input now db in
      let middle = rows_after db r in
      let (replies, last) = run_attach upper lower calls middle in
      let first =
        Replied-Bound uid db r sound (attach_and_bump-Replied upper lower uid input now db) in
      Bound-trans (if reply_of r then 1 else 0) (count_true replies) db middle last first
        (run_attach-Bound calls middle (first.0))
