-- ===== src/Clicker/State.antt =====
-- The hash that the scripts share (clicker.lua.ts, "Hash fields"), one field for each key. The
-- scripts write integers that are not negative, so a field is a number, and a key that the source
-- tells apart from 0 is an `Option`. The token bucket `ib` moves by (1 / 50) of a token for each
-- millisecond and is counted in fiftieths.
use rabbit_backend.Prelude.{ℕ, Bool, Option, none, some}
use Prim.Native.String.{String}

-- `ae`: '' or the effect of the active boost
pub data Effect : Type 0 where
  unset infinite_energy multiplier : Effect

pub record UserHash : Type 0 where
  pub points : Option ℕ  -- p
  pub total_points : ℕ  -- tp
  pub energy : ℕ  -- e
  pub last_ts : Option ℕ  -- t
  pub cost : Option ℕ  -- c
  pub max_energy : ℕ  -- m
  pub regen : ℕ  -- r, in thousandths of a unit for each second
  pub level : ℕ  -- l
  pub click_level : ℕ  -- cl
  pub energy_level : ℕ  -- el
  pub next_level_cost : ℕ  -- nl
  pub crit_chance : ℕ  -- cc
  pub auto_start : ℕ  -- as
  pub auto_max_idle : ℕ  -- ad
  pub auto_last : ℕ  -- ac
  pub boost_key : String  -- ab
  pub boost_at : ℕ  -- at
  pub boost_effect : Effect  -- ae
  pub boost_value : ℕ  -- av
  pub last_click : ℕ  -- lc
  pub pending_count : ℕ  -- apc
  pub pending_value : ℕ  -- apv
  pub tokens : Option ℕ  -- ib
  pub token_ts : Option ℕ  -- it

-- The hash of one user, and whether the user is in the dirty set that the flush reads.
pub record Store : Type 0 where
  pub user : UserHash
  pub dirty : Bool

-- `tonumber(h[i]) or d`
abbrev pub or_else : Option ℕ → ℕ → ℕ
or_else none d = d
or_else (some n) d = n
