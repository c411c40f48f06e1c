-- ===== src/Base/Words.antt =====
-- Machine words as native numbers: encoding/binary's big-endian order, and masks of 16-bit words.
use Prim.Native.Nat.{ℕ, zero, suc, ◌+◌, ◌*◌, ◌/◌, ◌%◌, ◌<◌, bit_and, bit_or}
use mathlib.Core.Path.{◌≡◌, refl}
use mathlib.Core.Bool.{Bool, true, ◌&&◌}
use mathlib.Core.List.{[], ◌∷◌, ◌++◌}
use native.Mathlib.Omega.{arith}
use go_network_lab.Base.Tests.{Bytes, ◌==◌, ==_iff}
use go_network_lab.Base.Lists.{length}
use go_network_lab.Base.Outcomes.{Outcome, ok, panic}

-- What a Go `uint16`, a `uint32` and a byte can hold.
abbrev pub u8_mod : ℕ
u8_mod = 256

abbrev pub u16_mod : ℕ
u16_mod = 65536

abbrev pub u32_mod : ℕ
u32_mod = 4294967296

-- `binary.BigEndian.PutUint16`, the two bytes that it writes
abbrev pub put_uint16 : ℕ → Bytes
put_uint16 v = (v / 256 % 256) ∷ (v % 256) ∷ []

-- `binary.BigEndian.PutUint32`
abbrev pub put_uint32 : ℕ → Bytes
put_uint32 v = (v / 16777216 % 256) ∷ (v / 65536 % 256) ∷ (v / 256 % 256) ∷ (v % 256) ∷ []

-- `binary.BigEndian.Uint16`, which panics on fewer than two bytes
unfoldable pub uint16 : {E : Type 0} → Bytes → Outcome E ℕ
uint16 (a ∷ b ∷ rest) = ok (a * 256 + b)
uint16 _ = panic

-- `binary.BigEndian.Uint32`
unfoldable pub uint32 : {E : Type 0} → Bytes → Outcome E ℕ
uint32 (a ∷ b ∷ c ∷ d ∷ rest) = ok (a * 16777216 + b * 65536 + c * 256 + d)
uint32 _ = panic

module _ {E : Type 0} where
  pub uint16-put_uint16 :
      (v : ℕ) (rest : Bytes) → v < u16_mod → uint16 {E = E} (put_uint16 v ++ rest) ≡ ok v
  unfolding uint16
  uint16-put_uint16 v rest h = let e : v / 256 % 256 * 256 + v % 256 ≡ v = omega arith in rw e

  pub uint32-put_uint32 :
      (v : ℕ) (rest : Bytes) → v < u32_mod → uint32 {E = E} (put_uint32 v ++ rest) ≡ ok v
  unfolding uint32
  uint32-put_uint32 v rest h =
      let e : v / 16777216 % 256 * 16777216
            + v / 65536 % 256 * 65536
            + v / 256 % 256 * 256
            + v % 256
          ≡ v =
        omega arith in
      rw e

  pub uint16-length : (bs : Bytes) → 1 < length bs → (v : ℕ) × (uint16 {E = E} bs ≡ ok v)
  unfolding uint16
  uint16-length [] h = absurd (omega arith)
  uint16-length (a ∷ []) h = absurd (omega arith)
  uint16-length (a ∷ b ∷ rest) h = (a * 256 + b, refl)

  pub uint32-length : (bs : Bytes) → 3 < length bs → (v : ℕ) × (uint32 {E = E} bs ≡ ok v)
  unfolding uint32
  uint32-length [] h = absurd (omega arith)
  uint32-length (a ∷ []) h = absurd (omega arith)
  uint32-length (a ∷ b ∷ []) h = absurd (omega arith)
  uint32-length (a ∷ b ∷ c ∷ []) h = absurd (omega arith)
  uint32-length (a ∷ b ∷ c ∷ d ∷ rest) h = (a * 16777216 + b * 65536 + c * 256 + d, refl)

-- A test of every number below a bound.
unfoldable pub all_below : ℕ → (ℕ → Bool) → Bool
all_below zero p = true
all_below (suc n) p = p n && all_below n p

all_below_lem : (n : ℕ) (p : ℕ → Bool) (x : ℕ) → all_below n p ≡ true → x < n → p x ≡ true
unfolding all_below
all_below_lem zero p x h lt = absurd (omega arith)
all_below_lem (suc n) p x h lt = ground (arith, all_below_lem n p x)

-- The single-bit masks of the DNS flags, and the mask of the response code.
bit_table : ℕ → Bool
bit_table m = all_below u16_mod (λ f. bit_and f m == f / m % 2 * m)

bit_tables :
    (bit_table 0x8000 ≡ true)
    × (bit_table 0x100 ≡ true)
    × (bit_table 0x200 ≡ true)
    × (bit_table 0x80 ≡ true)
unfolding bit_table all_below
bit_tables = (refl, refl, refl, refl)

bit_table_lem : (m f : ℕ) → bit_table m ≡ true → f < u16_mod → bit_and f m ≡ f / m % 2 * m
unfolding bit_table
bit_table_lem m f t h = (==_iff _ _).0 (all_below_lem u16_mod _ f t h)

module _ (f : ℕ) (h : f < u16_mod) where
  pub bit_and_bit15 : bit_and f 0x8000 ≡ f / 0x8000 % 2 * 0x8000
  bit_and_bit15 = bit_table_lem 0x8000 f bit_tables.0 h

  bit_and_bit8 : bit_and f 0x100 ≡ f / 0x100 % 2 * 0x100
  bit_and_bit8 = bit_table_lem 0x100 f bit_tables.1 h

  pub bit_and_bit9 : bit_and f 0x200 ≡ f / 0x200 % 2 * 0x200
  bit_and_bit9 = bit_table_lem 0x200 f bit_tables.2 h

  bit_and_bit7 : bit_and f 0x80 ≡ f / 0x80 % 2 * 0x80
  bit_and_bit7 = bit_table_lem 0x80 f bit_tables.3 h

low4_table : all_below u16_mod (λ f. bit_and f 0x000F == f % 16) ≡ true
unfolding all_below
low4_table = refl

pub bit_and_low4 : (f : ℕ) → f < u16_mod → bit_and f 0x000F ≡ f % 16
bit_and_low4 f h = (==_iff _ _).0 (all_below_lem u16_mod _ f low4_table h)

-- The two top bits of a byte, which mark a DNS compression pointer, and the six below them.
top2_table : all_below u8_mod (λ b. bit_and b 0xC0 == b / 64 * 64) ≡ true
unfolding all_below
top2_table = refl

pub bit_and_top2 : (b : ℕ) → b < u8_mod → bit_and b 0xC0 ≡ b / 64 * 64
bit_and_top2 b h = (==_iff _ _).0 (all_below_lem u8_mod _ b top2_table h)

low6_table : all_below u8_mod (λ b. bit_and b 0x3F == b % 64) ≡ true
unfolding all_below
low6_table = refl

pub bit_and_low6 : (b : ℕ) → b < u8_mod → bit_and b 0x3F ≡ b % 64
bit_and_low6 b h = (==_iff _ _).0 (all_below_lem u8_mod _ b low6_table h)

joined_table : all_below 64 (λ x. all_below u8_mod (λ y. bit_or (x * 256) y == x * 256 + y)) ≡ true
unfolding all_below
joined_table = refl

pub bit_or_bytes : (x y : ℕ) → x < 64 → y < u8_mod → bit_or (x * 256) y ≡ x * 256 + y
bit_or_bytes x y h k = (==_iff _ _).0 (
    all_below_lem u8_mod (λ z. bit_or (x * 256) z == x * 256 + z) y
      (all_below_lem 64 (λ w. all_below u8_mod (λ z. bit_or (w * 256) z == w * 256 + z)) x
        joined_table h)
      k)
