-- ===== src/Base/Text.antt =====
-- Texts: the length that JavaScript gives, in UTF-16 code units.
use Prim.Native.Char.{code}
use Prim.Native.String.{String}
use forgeos_web.Base.{ℕ, ◌+◌, ltb, if◌then◌else◌}

abbrev pub utf16_length : String → ℕ
utf16_length String.[] = 0
utf16_length (String.◌∷◌ c s) =
    let rest = utf16_length s in if ltb (code c) 0x10000 then rest + 1 else rest + 2
