-- ===== src/Dns/Name.antt =====
-- internal/dns/name.go. The loop's variables are a record; one round of it is `name_step`, and
-- `name_loop` repeats it on fuel. Offsets are not negative, as in every call of `decodeName`.
pub mod Bounds
pub mod RoundTrip
pub mod Pointer
use go_network_lab.Base.{
  ℕ, zero, suc, ◌+◌, ◌-◌, ◌*◌, Bool, List, [], ◌∷◌, ◌++◌, Option, none, some, Bytes, length,
  bit_and, bit_or, ltb, leb, ◌==◌, if◌then◌else◌, Outcome, ok, err, stuck, ◌>>=◌, index, slice,
}
use go_network_lab.Base.Strings.{join}
use go_network_lab.Dns.Encode.{dot}
use go_network_lab.Dns.Message.{
  Error, name_out_of_bounds, truncated_pointer, too_many_jumps, label_out_of_bounds, name_too_long,
  invalid_label_length,
}

abbrev pub max_name_jumps : ℕ
max_name_jumps = 16

-- `next_offset` is `none` where the code has -1.
pub record Cursor : Type 0 where
  pub labels : List Bytes
  pub current : ℕ
  pub next_offset : Option ℕ
  pub jumps : ℕ
  pub name_length : ℕ

-- What a round does: return, or go on.
pub data Step : Type 0 where
  done : Bytes → ℕ → Step
  again : Cursor → Step

-- `if nextOffset == -1 { nextOffset = n }`
abbrev pub keep_or : Option ℕ → ℕ → ℕ
keep_or none n = n
keep_or (some m) n = m

-- The branch for a compression pointer, whose first byte is `len`.
unfoldable pub follow_pointer : Bytes → Cursor → ℕ → Outcome Error Step
follow_pointer bytes c len =
    if leb (length bytes) (c.current + 1) then err truncated_pointer else do
      low ← index bytes (c.current + 1)
      let jumped = record c {
        current = bit_or (bit_and len 0x3F * 256) low;
        next_offset = some (keep_or c.next_offset (c.current + 2));
        jumps = c.jumps + 1;
      }
      if ltb max_name_jumps (c.jumps + 1) then err too_many_jumps else ok (again jumped)

-- The branch for a label of `len` bytes.
unfoldable pub take_label : Bytes → Cursor → ℕ → Outcome Error Step
take_label bytes c len =
    if ltb 63 len
    then err (invalid_label_length len)
    else if ltb (length bytes - c.current - 1) len
    then err label_out_of_bounds
    else if ltb 255 (c.name_length + (1 + len))
    then err name_too_long
    else do
      label ← slice bytes (c.current + 1) (c.current + 1 + len)
      ok (
          again (record c {
            labels = c.labels ++ label ∷ [];
            current = c.current + 1 + len;
            name_length = c.name_length + (1 + len);
          }))

-- The rest of a round, at the byte `len` under the cursor.
unfoldable pub name_at : Bytes → Cursor → ℕ → Outcome Error Step
name_at bytes c len =
    if len == 0
    then ok (done (join dot c.labels) (keep_or c.next_offset (c.current + 1)))
    else if bit_and len 0xC0 == 0xC0
    then follow_pointer bytes c len
    else take_label bytes c len

unfoldable pub name_step : Bytes → Cursor → Outcome Error Step
name_step bytes c =
    if leb (length bytes) c.current
    then err name_out_of_bounds
    else (do len ← index bytes c.current; name_at bytes c len)

unfoldable pub name_loop : ℕ → Bytes → Cursor → Outcome Error (Bytes × ℕ)
name_loop zero bytes c = stuck
name_loop (suc fuel) bytes c = do
  s ← name_step bytes c
  elim s [ done name next ↦ ok (name, next) | again c' ↦ name_loop fuel bytes c' ]

abbrev pub cursor_at : ℕ → Cursor
cursor_at offset = record {
  labels = [];
  current = offset;
  next_offset = none;
  jumps = 0;
  name_length = 1;
}

-- More rounds than any name has: see `Name.Bounds`.
abbrev pub name_fuel : ℕ
name_fuel = 273

unfoldable pub decode_name : Bytes → ℕ → Outcome Error (Bytes × ℕ)
decode_name bytes offset = name_loop name_fuel bytes (cursor_at offset)
