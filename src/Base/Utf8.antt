-- ===== src/Base/Utf8.antt =====
-- `utf8.Valid`: package encoding/json keeps exactly the strings that satisfy it.
use mathlib.Core.Path.{◌≡◌, refl}
use mathlib.Core.Bool.{Bool, true, false, ◌&&◌}
use mathlib.Core.List.{[], ◌∷◌}
use Prim.Native.Nat.{ℕ}
use go_network_lab.Base.Tests.{Bytes, codes, ◌==◌, leb, ltb, if◌then◌else◌}

abbrev within : ℕ → ℕ → ℕ → Bool
within lo hi b = leb lo b && leb b hi

-- Where the second byte may lie behind the first.
abbrev second_fits : ℕ → ℕ → Bool
second_fits a b =
    if a == 0xE0
    then within 0xA0 0xBF b
    else if a == 0xED
    then within 0x80 0x9F b
    else if a == 0xF0
    then within 0x90 0xBF b
    else if a == 0xF4
    then within 0x80 0x8F b
    else within 0x80 0xBF b

-- Between two characters, or behind a byte with one, two or three more to follow.
pub data Inside : Type 0 where
  between : Inside
  needs1 needs2 needs3 : ℕ → Inside

unfoldable pub valid_from : Inside → Bytes → Bool
valid_from between [] = true
valid_from _ [] = false
valid_from between (a ∷ s) =
    if ltb a 0x80
    then valid_from between s
    else if within 0xC2 0xDF a
    then valid_from (needs1 a) s
    else if within 0xE0 0xEF a
    then valid_from (needs2 a) s
    else within 0xF0 0xF4 a && valid_from (needs3 a) s
valid_from (needs1 first) (b ∷ s) = second_fits first b && valid_from between s
valid_from (needs2 first) (b ∷ s) = second_fits first b && valid_from (needs1 0x80) s
valid_from (needs3 first) (b ∷ s) = second_fits first b && valid_from (needs2 0x80) s

unfoldable pub valid_utf8 : Bytes → Bool
valid_utf8 s = valid_from between s

validity :
    (valid_utf8 (codes "abc") ≡ true)
    × (valid_utf8 (0xE2 ∷ 0x82 ∷ 0xAC ∷ []) ≡ true)
    × (valid_utf8 (0xC0 ∷ 0x80 ∷ []) ≡ false)
    × (valid_utf8 (0xF0 ∷ 0x9F ∷ 0x98 ∷ 0x80 ∷ []) ≡ true)
    × (valid_utf8 (0xF0 ∷ 0x9F ∷ 0x98 ∷ []) ≡ false)
unfolding valid_utf8 valid_from
validity = (refl, refl, refl, refl, refl)
