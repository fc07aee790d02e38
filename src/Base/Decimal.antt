-- ===== src/Base/Decimal.antt =====
-- Numbers of the wire, as exact decimals: `mantissa` times ten to the power of minus `places`.
use Prim.Native.Nat.{◌/◌}
use forgeos_web.Base.{ℕ, ◌+◌, ◌-◌, ◌*◌, ◌^◌, Bool, false, ◌==◌}
use forgeos_web.Base.Int.{ℤ, pos, negsuc, sub_ℕ}

pub record Decimal : Type 0 where
  pub mantissa : ℤ
  pub places : ℕ

abbrev pub whole : ℕ → Decimal
whole n = record { mantissa = pos n; places = 0 }

is_pos : ℤ → ℕ → Bool
is_pos (pos m) n = m == n
is_pos (negsuc m) n = false

-- `d === n`, and so whether the text of `d` is the digits of `n`
unfoldable pub is_whole : Decimal → ℕ → Bool
unfolding is_pos
is_whole d n = is_pos d.mantissa (n * 10 ^ d.places)

abbrev scale_int : ℕ → ℤ → ℤ
scale_int k (pos m) = pos (k * m)
scale_int k (negsuc m) = negsuc (k * m + k - 1)

-- `k * d` for a positive `k`
unfoldable pub scale : ℕ → Decimal → Decimal
scale k d = record d { mantissa = scale_int k d.mantissa }

-- `floor (m / n)` for a positive `n`
abbrev floor_div : ℤ → ℕ → ℤ
floor_div (pos m) n = pos (m / n)
floor_div (negsuc m) n = negsuc (m / n)

abbrev add_nat : ℤ → ℕ → ℤ
add_nat (pos m) k = pos (m + k)
add_nat (negsuc m) k = sub_ℕ k (m + 1)

-- `Math.round(d)`, which is `floor (d + 1/2)`
unfoldable pub round : Decimal → ℤ
round d = floor_div (add_nat (scale_int 2 d.mantissa) (10 ^ d.places)) (2 * 10 ^ d.places)
