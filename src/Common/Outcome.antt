-- ===== src/Common/Outcome.antt =====
-- The outcome of a call that may throw, and `slice` and `toLowerCase` on texts.
use Prim.Native.Nat.{ℕ, zero, suc, ◌+◌}
use Prim.Native.Char.{code}
use Prim.Native.String.{String}
use scientific_protocol.Common.Tests.{ltb, if◌then◌else◌}

pub data Result {ℓ} (E A : Type ℓ) : Type ℓ where
  ok : A → Result E A
  thrown : E → Result E A

-- `s.slice(0, n)` counts UTF-16 units: a character above U+FFFF is two of them, and half of one
-- reaches the database as U+FFFD.
unfoldable pub slice : ℕ → String → String
slice zero s = String.[]
slice (suc n) String.[] = String.[]
slice (suc zero) (String.◌∷◌ c s) = String.◌∷◌ (if ltb (code c) 0x10000 then c else "�") String.[]
slice (suc (suc n)) (String.◌∷◌ c s) =
    let narrow = slice (suc n) s in
    let wide = slice n s in String.◌∷◌ c (if ltb (code c) 0x10000 then narrow else wide)

abbrev pub units : String → ℕ
units String.[] = 0
units (String.◌∷◌ c s) = (if ltb (code c) 0x10000 then 1 else 2) + units s
