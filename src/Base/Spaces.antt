-- ===== src/Base/Spaces.antt =====
-- `strings.TrimSpace` on the bytes of a text in UTF-8: the white space of `unicode.IsSpace`.
use mathlib.Core.Path.{◌≡◌, refl}
use mathlib.Core.Bool.{Bool, true, false, ◌&&◌, ◌||◌}
use mathlib.Core.List.{[], ◌∷◌, ◌++◌, reverse}
use Prim.Native.Nat.{ℕ, zero, suc}
use go_network_lab.Base.Tests.{Bytes, codes, ◌==◌, leb, if◌then◌else◌}
use go_network_lab.Base.Lists.{length, drop}

-- Tab, newline, vertical tab, form feed, carriage return and space.
abbrev pub is_ascii_space : ℕ → Bool
is_ascii_space c = leb 9 c && leb c 13 || c == 32

-- U+0085 and U+00A0
abbrev is_space2 : ℕ → ℕ → Bool
is_space2 a b = a == 0xC2 && (b == 0x85 || b == 0xA0)

-- U+1680, U+2000 to U+200A, U+2028, U+2029, U+202F, U+205F and U+3000
abbrev is_space3 : ℕ → ℕ → ℕ → Bool
is_space3 a b c =
    a == 0xE1 && b == 0x9A && c == 0x80
    || a == 0xE2 && b == 0x80 && (leb 0x80 c && leb c 0x8A || c == 0xA8 || c == 0xA9 || c == 0xAF)
    || a == 0xE2 && b == 0x81 && c == 0x9F
    || a == 0xE3 && b == 0x80 && c == 0x80

-- How many bytes the white space at the front takes, 0 if there is none; the flag tells whether the
-- bytes stand in reverse, as they do when the end of a text is trimmed.
unfoldable pub space_width : Bool → Bytes → ℕ
space_width backwards [] = 0
space_width backwards (a ∷ []) = if is_ascii_space a then 1 else 0
space_width backwards (a ∷ b ∷ []) =
    if is_ascii_space a
    then 1
    else if (if backwards then is_space2 b a else is_space2 a b)
    then 2
    else 0
space_width backwards (a ∷ b ∷ c ∷ rest) =
    if is_ascii_space a
    then 1
    else if (if backwards then is_space2 b a else is_space2 a b)
    then 2
    else if (if backwards then is_space3 c b a else is_space3 a b c)
    then 3
    else 0

-- One round for each byte is enough.
unfoldable pub trim_front : ℕ → Bool → Bytes → Bytes
trim_front zero backwards s = s
trim_front (suc fuel) backwards s =
    let rest = trim_front fuel backwards (drop (space_width backwards s) s) in
    if space_width backwards s == 0 then s else rest

unfoldable pub trim_space : Bytes → Bytes
unfolding trim_front space_width
trim_space s =
    let front = trim_front (length s) false s in
    reverse (trim_front (length front) true (reverse front))

trims :
    (trim_space (codes " \t a b\r\n") ≡ codes "a b")
    × (trim_space (0xC2 ∷ 0xA0 ∷ codes "x" ++ 0xE2 ∷ 0x80 ∷ 0xA9 ∷ []) ≡ codes "x")
    × (trim_space (codes "  ") ≡ [])
unfolding trim_space
trims = (refl, refl, refl)
