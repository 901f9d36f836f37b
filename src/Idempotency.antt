-- ===== src/Idempotency.antt =====
-- The idempotency of requests: src/core/idempotency/idempotency.service.ts. Redis is a list of
-- entries under their keys, each with the moment at which it expires; SHA-256 is a parameter. A call
-- of `run` is two steps, up to the start of its handler and after its end, between which other calls
-- run.
pub mod Refines
pub mod Tests
use rabbit_backend.Prelude.{
  ℕ, ◌+◌, Bool, true, false, Option, none, some, List, [], ◌∷◌, ◌++◌, ltb, if◌then◌else◌, Result,
  ok, err,
}
use rabbit_backend.Prelude.Texts.{Text, codes, text_eq, is_filled, take_units, trim}

-- IDEMPOTENCY_RESULT_TTL_SECONDS, in milliseconds
abbrev pub result_ttl : ℕ
result_ttl = 86400000

-- IDEMPOTENCY_PROCESSING_TTL_SECONDS, in milliseconds
abbrev pub processing_ttl : ℕ
processing_ttl = 60000

abbrev pub key_max_length : ℕ
key_max_length = 160

-- `string | string[] | undefined`
pub data RawKey : Type 0 where
  undefined : RawKey
  one : Text → RawKey
  many : List Text → RawKey

abbrev pub key_of : Text → Option Text
key_of s =
    let trimmed = trim s in
    if is_filled trimmed then some (take_units key_max_length trimmed) else none

-- `normaliseKey`
unfoldable pub normalise_key : RawKey → Option Text
normalise_key undefined = none
normalise_key (one s) = key_of s
normalise_key (many []) = none
normalise_key (many (s ∷ _)) = key_of s

-- `redisKey`
unfoldable pub redis_key : (Text → Text) → Text → Text → Text → Text
redis_key sha256 scope actor key =
    codes "clicker:idempotency:" ++ scope ++ codes ":" ++ actor ++ codes ":" ++ sha256 key

-- `StoredIdempotencyEntry`
pub data StoredEntry (A : Type 0) : Type 0 where
  processing : ℕ → StoredEntry A
  done : A → StoredEntry A

-- What a call does before the end of its handler: it runs it, or replies with a stored result, or
-- throws a ConflictException.
pub data Began (A : Type 0) : Type 0 where
  starts : Began A
  replies : A → Began A
  conflicts : Began A

abbrev pub Store : Type 0 → Type 0
Store A = List (Text × (StoredEntry A × ℕ))

module _ {A : Type 0} where
  -- `GET`, of an entry that has not expired
  abbrev pub get_entry : Text → ℕ → Store A → Option (StoredEntry A)
  get_entry key now [] = none
  get_entry key now ((k, (entry, expires_at)) ∷ rest) =
      let later = get_entry key now rest in
      if text_eq k key then (if ltb now expires_at then some entry else none) else later

  -- `DEL`
  abbrev pub delete_entry : Text → Store A → Store A
  delete_entry key [] = []
  delete_entry key (e ∷ rest) =
      let later = delete_entry key rest in if text_eq (e.0) key then later else e ∷ later

  -- `SET ... EX`
  abbrev pub set_entry : Text → StoredEntry A → ℕ → Store A → Store A
  set_entry key entry expires_at store = (key, (entry, expires_at)) ∷ delete_entry key store

  abbrev pub read_stored : Option (StoredEntry A) → Began A
  read_stored (some (done result)) = replies result
  read_stored _ = conflicts

  -- `run` up to the handler: `SET ... NX` at the moment `now`, and `GET` at the moment `read_at` if
  -- that has not set the key
  unfoldable pub begin_run : Text → ℕ → ℕ → Store A → Began A × Store A
  begin_run key now read_at store = elim (get_entry key now store) [
    | none ↦ (starts, set_entry key (processing now) (now + processing_ttl) store)
    | some _ ↦ (read_stored (get_entry key read_at store), store)
  ]

  -- `run` after the handler
  unfoldable pub end_run : {E : Type 0} → Text → ℕ → Result E A → Store A → Store A
  end_run key now (ok result) store = set_entry key (done result) (now + result_ttl) store
  end_run key now (err _) store = delete_entry key store
