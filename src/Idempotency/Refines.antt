-- ===== src/Idempotency/Refines.antt =====
-- The service implements a register that runs a handler once, without clocks or expiry, as long as a
-- handler ends before its lock expires and a result is asked for before it does.
use rabbit_backend.Prelude.{
  ℕ, ◌+◌, ◌≤◌, ◌<◌, ◌≡◌, refl, ◌∙◌, true, Option, none, some, List, [], ◌∷◌, ltb, if◌then◌else◌,
  Result, ok, err, Bool-cases, inl, inr, arith,
}
use rabbit_backend.Prelude.Texts.{Text, text_eq, text_eq_refl}
use rabbit_backend.Idempotency.{
  result_ttl, processing_ttl, StoredEntry, processing, done, Began, starts, replies, conflicts,
  Store, get_entry, delete_entry, set_entry, begin_run, end_run,
}

-- The requests with one key, and the ends of their handlers, in the order of their moments
pub data Event (E A : Type 0) : Type 0 where
  request : (now read_at : ℕ) → Event E A
  handled : (now : ℕ) → Result E A → Event E A

-- The register: no handler, one that runs since a moment, or the result of one with its moment
pub data Register (A : Type 0) : Type 0 where
  idle : Register A
  busy : ℕ → Register A
  settled : A → ℕ → Register A

module _ {A : Type 0} where
  -- A request starts a handler only if there is neither one that runs nor a result.
  abbrev pub ask : ℕ → Register A → Began A × Register A
  ask now idle = (starts, busy now)
  ask now (busy t) = (conflicts, busy t)
  ask now (settled a t) = (replies a, settled a t)

  abbrev pub Within : Register A → ℕ → Type 0
  Within idle read_at = Unit
  Within (busy t) read_at = read_at < t + processing_ttl
  Within (settled _ t) read_at = read_at < t + result_ttl

  -- The entry that stands for a state of the register
  abbrev pub entry_of : Register A → ℕ → Option (StoredEntry A)
  entry_of idle now = none
  entry_of (busy t) now = if ltb now (t + processing_ttl) then some (processing t) else none
  entry_of (settled a t) now = if ltb now (t + result_ttl) then some (done a) else none

  Represents : Text → Store A → Register A → Type 0
  Represents key store r = (now : ℕ) → get_entry key now store ≡ entry_of r now

  get-delete_entry :
      (key : Text) (now : ℕ) (store : Store A) → get_entry key now (delete_entry key store) ≡ none
  get-delete_entry key now [] = refl
  get-delete_entry key now ((k, (entry, expires_at)) ∷ rest) = elim (Bool-cases (text_eq k key)) [
    | inl same ↦ rw same (get-delete_entry key now rest)
    | inr other ↦ rw (other, other) (get-delete_entry key now rest)
  ]

  get-set_entry :
      (key : Text) (entry : StoredEntry A) (expires_at now : ℕ) (store : Store A)
      → get_entry key now (set_entry key entry expires_at store)
        ≡ (if ltb now expires_at then some entry else none)
  get-set_entry key entry expires_at now store = rw (text_eq_refl key) refl

  in_time :
      (entry : StoredEntry A) (now expires_at : ℕ)
      → now < expires_at
      → (if ltb now expires_at then some entry else none) ≡ some entry
  in_time entry now expires_at h =
      let live : ltb now expires_at ≡ true = ground arith in rw live refl

  begin_run-Represents :
      (key : Text) (now read_at : ℕ) (store : Store A) (r : Register A)
      → Represents key store r
      → now ≤ read_at
      → Within r read_at
      → ((begin_run key now read_at store).0 ≡ (ask now r).0)
        × Represents key (begin_run key now read_at store).1 (ask now r).1
  unfolding begin_run Represents
  begin_run-Represents key now read_at store idle same le within =
      let fresh = same now in
      (
        rw (begin_run, fresh) refl,
        λ later.
            rw (begin_run, fresh)
              (get-set_entry key (processing now) (now + processing_ttl) later store),
      )
  begin_run-Represents key now read_at store (busy t) same le within =
      let hit = same now ∙ in_time (processing t) now (t + processing_ttl) (omega arith) in
      let read = same read_at ∙ in_time (processing t) read_at (t + processing_ttl) within in
      (rw (begin_run, hit, read) refl, λ later. rw (begin_run, hit) (same later))
  begin_run-Represents key now read_at store (settled a t) same le within =
      let hit = same now ∙ in_time (done a) now (t + result_ttl) (omega arith) in
      let read = same read_at ∙ in_time (done a) read_at (t + result_ttl) within in
      (rw (begin_run, hit, read) refl, λ later. rw (begin_run, hit) (same later))

module _ {E A : Type 0} where
  -- A failed handler may be tried again.
  abbrev pub conclude : ℕ → Result E A → Register A
  conclude now (ok a) = settled a now
  conclude now (err _) = idle

  unfoldable pub run_register : List (Event E A) → Register A → List (Began A)
  run_register [] r = []
  run_register (request now read_at ∷ events) r = (ask now r).0 ∷ run_register events (ask now r).1
  run_register (handled now result ∷ events) r = run_register events (conclude now result)

  -- The service on the same events, with the entries of Redis
  unfoldable pub run_service : Text → List (Event E A) → Store A → List (Began A)
  run_service key [] store = []
  run_service key (request now read_at ∷ events) store =
      let step = begin_run key now read_at store in step.0 ∷ run_service key events step.1
  run_service key (handled now result ∷ events) store =
      run_service key events (end_run key now result store)

  -- Each request comes before the lock or the result that it meets expires.
  abbrev pub Timely : List (Event E A) → Register A → Type 0
  Timely [] r = Unit
  Timely (request now read_at ∷ events) r =
      (now ≤ read_at) × (Within r read_at × Timely events (ask now r).1)
  Timely (handled now result ∷ events) r = Timely events (conclude now result)

  end_run-Represents :
      (key : Text) (now : ℕ) (result : Result E A) (store : Store A)
      → Represents key (end_run key now result store) (conclude now result)
  unfolding end_run Represents
  end_run-Represents key now (ok a) store later =
      get-set_entry key (done a) (now + result_ttl) later store
  end_run-Represents key now (err _) store later = get-delete_entry key later store

  run_service_from :
      (key : Text) (events : List (Event E A)) (store : Store A) (r : Register A)
      → Represents key store r
      → Timely events r
      → run_service key events store ≡ run_register events r
  unfolding run_service run_register
  run_service_from key [] store r same timely = refl
  run_service_from key (request now read_at ∷ events) store r same (le, (within, timely)) =
      let (reply, same') = begin_run-Represents key now read_at store r same le within in
      let later =
        run_service_from key events (begin_run key now read_at store).1 (ask now r).1 same'
          timely in
      rw (reply, later) refl
  run_service_from key (handled now result ∷ events) store r same timely =
      run_service_from key events (end_run key now result store) (conclude now result)
        (end_run-Represents key now result store) timely

  -- Requests with one key and the ends of their handlers, from a store without that key, where no
  -- request comes when the lock of a running handler (60 seconds) or a stored result (24 hours) that it
  -- meets has expired: each request has the reply of the register, so that none starts a handler while
  -- one runs or after one has succeeded.
  pub run_service-eq-run_register :
      (key : Text) (events : List (Event E A)) (store : Store A)
      → ((now : ℕ) → get_entry key now store ≡ none)
      → Timely events idle
      → run_service key events store ≡ run_register events idle
  unfolding Represents
  run_service-eq-run_register key events store fresh timely =
      run_service_from key events store idle fresh timely
