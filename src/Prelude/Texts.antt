-- ===== src/Prelude/Texts.antt =====
-- A JavaScript string as the list of its UTF-16 code units, with the string methods that the source
-- calls on it.
use Prim.Native.Nat.{ℕ, zero, suc, ◌+◌, ◌/◌, ◌%◌}
use Prim.Native.Char.{code}
use Prim.Native.String.{String}
use mathlib.Core.Path.{◌≡◌, refl}
use mathlib.Core.Bool.{Bool, true, false, ◌&&◌, ◌||◌}
use mathlib.Core.List.{List, [], ◌∷◌}
use native.Mathlib.Omega.{arith}
use rabbit_backend.Prelude.Tests.{◌==◌, leb, ltb, if◌then◌else◌, ==_refl}
use rabbit_backend.Prelude.Lists.{includes}

abbrev pub Text : Type 0
Text = List ℕ

-- A literal of ASCII characters
abbrev pub codes : String → Text
codes String.[] = []
codes (String.◌∷◌ c s) = code c ∷ codes s

-- `===`
abbrev pub text_eq : Text → Text → Bool
text_eq [] [] = true
text_eq (a ∷ s) (b ∷ t) = (a == b) && text_eq s t
text_eq _ _ = false

-- `Boolean(s)`
abbrev pub is_filled : Text → Bool
is_filled [] = false
is_filled (_ ∷ _) = true

-- `s.slice(0, n)`
abbrev pub take_units : ℕ → Text → Text
take_units zero s = []
take_units (suc n) [] = []
take_units (suc n) (c ∷ s) = c ∷ take_units n s

-- The white space and the line ends that `trim` removes.
abbrev pub is_space : ℕ → Bool
is_space c =
    includes
      (9 ∷ 10 ∷ 11 ∷ 12 ∷ 13 ∷ 32 ∷ 160 ∷ 5760 ∷ 8232 ∷ 8233 ∷ 8239 ∷ 8287 ∷ 12288 ∷ 65279 ∷ []) c
    || (leb 8192 c && leb c 8202)

abbrev pub trim_start : Text → Text
trim_start [] = []
trim_start (c ∷ s) = if is_space c then trim_start s else c ∷ s

-- `trim_end` drops a unit if it is white space and all after it was dropped.
abbrev pub keep_unit : ℕ → Text → Text
keep_unit c [] = if is_space c then [] else c ∷ []
keep_unit c (d ∷ s) = c ∷ d ∷ s

abbrev pub trim_end : Text → Text
trim_end [] = []
trim_end (c ∷ s) = keep_unit c (trim_end s)

abbrev pub trim : Text → Text
trim s = trim_end (trim_start s)

pub text_eq→eq : (s t : Text) → text_eq s t ≡ true → s ≡ t
text_eq→eq [] [] h = refl
text_eq→eq [] (b ∷ t) h = absurd (ground arith)
text_eq→eq (a ∷ s) [] h = absurd (ground arith)
text_eq→eq (a ∷ s) (b ∷ t) h = ground (arith, text_eq→eq s t)

pub text_eq_refl : (s : Text) → text_eq s s ≡ true
text_eq_refl [] = refl
text_eq_refl (a ∷ s) = ground (arith, ==_refl a, text_eq_refl s)

-- The digits of a number; `n + 1` rounds are enough, for a round divides by ten.
unfoldable pub digits : ℕ → ℕ → Text → Text
digits zero n after = after
digits (suc fuel) n after =
    let rest = digits fuel (n / 10) ((48 + n % 10) ∷ after) in
    if ltb n 10 then (48 + n) ∷ after else rest

-- `${n}`
abbrev pub decimal : ℕ → Text
decimal n = digits (suc n) n []
