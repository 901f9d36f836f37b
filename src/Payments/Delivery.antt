-- ===== src/Payments/Delivery.antt =====
-- A notification that is delivered a second time has no further effect.
use mathlib.Core.Path.{subst}
use rabbit_backend.Prelude.{
  ℕ, ◌≡◌, ap, ◌∙◌, sym, Bool, true, false, not, ◌&&◌, ◌||◌, none, some, Result, ok, err, inl, inr,
  arith,
}
use rabbit_backend.Prelude.Table.{
  Table, find_where, find_among, find_among-find_row, find_among-save_row, keys, keys-save_row,
  save_row,
}
use rabbit_backend.Prelude.Texts.{Text, is_filled, trim}
use rabbit_backend.Payments.{Payload, verify_skinsback_signature}
use rabbit_backend.Payments.Deposits.{
  Deposit, DepositDb, Config, Headers, WebhookError, WebhookReply, handle_webhook, is_named,
  trimmed_or_empty, provided_sign,
}
use rabbit_backend.Payments.Webhook.{webhook_cases}
use rabbit_backend.Payments.Repeat.{Repeats, handle_deposit-Repeats}

find_where-save_row :
    (test : Deposit → Bool) (t : Table Deposit) (id : ℕ) (d d' : Deposit)
    → find_where test t ≡ some (id, d)
    → test d' ≡ true
    → find_where test (save_row id d' t) ≡ some (id, d')
find_where-save_row test t id d d' found good =
    let (row, _) = find_among-find_row test t (keys t) id d found in
    ap (find_among test (save_row id d' t)) (keys-save_row id d' d t row)
    ∙ find_among-save_row test t (keys t) id d d' found good

-- The first notification has been answered, and the second leaves what the first has left.
abbrev pub Unmoved :
    (DepositDb → Result WebhookError (WebhookReply × DepositDb))
    → Result WebhookError (WebhookReply × DepositDb)
    → Type 0
Unmoved again (err _) = Unit
Unmoved again (ok (_, after)) =
    (reply : WebhookReply) × (again after ≡ ok (reply, after))
    × (reply.notify_success ≡ none)
    × (reply.partner_postback ≡ none)

module _ (md5 : Text → Text) (config : Config) (headers : Headers) (payload : Payload)
    (now now' : ℕ) where
  with_row :
      (db : DepositDb) (r : Result WebhookError (WebhookReply × DepositDb)) (id : ℕ) (d : Deposit)
      → find_where (is_named (trim payload.order_id) (trim payload.transaction_id)) db.deposits
        ≡ some (id, d)
      → (not (is_filled (trimmed_or_empty config.client_id))
          || not (is_filled (trimmed_or_empty config.client_secret)))
        ≡ false
      → not (
          verify_skinsback_signature md5
            (trimmed_or_empty config.client_id)
            (trimmed_or_empty config.client_secret)
            (provided_sign headers payload))
        ≡ false
      → (not (is_filled (trim payload.order_id)) && not (is_filled (trim payload.transaction_id)))
        ≡ false
      → Repeats payload now' id db r
      → Unmoved (handle_webhook md5 config headers payload now') r
  unfolding handle_webhook Repeats
  with_row db (err _) id d found configured signed named again = tt
  with_row db (ok (reply, after)) id d found configured signed named again =
      let (d', rows, good, known, (reply', stays, unpaid, unposted)) = again in
      let test = is_named (trim payload.order_id) (trim payload.transaction_id) in
      let found' : find_where test after.deposits ≡ some (id, d') =
        ap (find_where test) rows ∙ find_where-save_row test db.deposits id d d' found good in
      (reply', rw (configured, signed, named, found', known) stays, unpaid, unposted)

  -- A notification that is accepted, and then delivered again at any moment: it is accepted again,
  -- pays nobody, posts nothing to a partner, and leaves all rows as the first one left them.
  pub handle_webhook_twice :
      (db after : DepositDb) (reply : WebhookReply)
      → handle_webhook md5 config headers payload now db ≡ ok (reply, after)
      → (reply' : WebhookReply) × (handle_webhook md5 config headers payload now' after
          ≡ ok (reply', after))
        × (reply'.notify_success ≡ none)
        × (reply'.partner_postback ≡ none)
  handle_webhook_twice db after reply h = elim (webhook_cases md5 config headers payload now db) [
    | inl (e, refused) ↦ absurd (ground arith)
    | inr (id, d, found, configured, signed, named, known, handled) ↦
        let test = is_named (trim payload.order_id) (trim payload.transaction_id) in
        let (_, good) = find_among-find_row test db.deposits (keys db.deposits) id d found in
        with_row db (ok (reply, after)) id d found configured signed named (
          subst (Repeats payload now' id db) (sym handled ∙ h)
            (handle_deposit-Repeats payload now' id d db good known now))
  ]
