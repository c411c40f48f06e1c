-- ===== src/Dns/Name/Pointer.antt =====
-- A name written as a compression pointer.
use go_network_lab.Base.{
  ℕ, ◌+◌, ◌/◌, ◌%◌, ◌<◌, ◌≡◌, ◌∙◌, ◌++◌, some, arith, Bytes, length, get_elem?, lt_of_get_elem?,
  bit_and_top2, bit_and_low6, bit_or_bytes, ok, index,
}
use go_network_lab.Base.Strings.{trim_suffix}
use go_network_lab.Dns.Encode.{dot, encode_name}
use go_network_lab.Dns.Name.{
  Cursor, again, follow_pointer, name_at, name_step, cursor_at, decode_name,
}
use go_network_lab.Dns.Name.RoundTrip.{name_loop-Encoded, name_loop_again, encode_name-Encoded}

-- The two bytes at `offset` are a pointer to `target`.
pub record PointerAt (bytes : Bytes) (offset target : ℕ) : Type 0 where
  pub high : get_elem? bytes offset ≡ some (192 + target / 256)
  pub low : get_elem? bytes (offset + 1) ≡ some (target % 256)
  pub in_range : target < 16384

abbrev jumped : ℕ → ℕ → Cursor
jumped offset target = record (cursor_at target) { next_offset = some (offset + 2); jumps = 1 }

name_step-PointerAt :
    (bytes : Bytes) (offset target : ℕ)
    → PointerAt bytes offset target
    → name_step bytes (cursor_at offset) ≡ ok (again (jumped offset target))
unfolding name_step name_at follow_pointer index
name_step-PointerAt bytes offset target p = ground (
  arith,
  lt_of_get_elem? bytes offset p.high,
  lt_of_get_elem? bytes (offset + 1) p.low,
  bit_and_top2 (192 + target / 256),
  bit_and_low6 (192 + target / 256),
  bit_or_bytes (target / 256) (target % 256),
)

-- A pointer to an encoded name is read as that name, and the next offset lies behind the pointer's
-- two bytes.
pub decode_name-PointerAt :
    (name before after : Bytes) (offset : ℕ) {wire : Bytes}
    → encode_name name ≡ ok wire
    → PointerAt (before ++ (wire ++ after)) offset (length before)
    → decode_name (before ++ (wire ++ after)) offset ≡ ok (trim_suffix dot name, offset + 2)
unfolding decode_name
decode_name-PointerAt name before after offset {wire} h p =
    name_loop_again 272 (before ++ (wire ++ after)) (cursor_at offset)
      (name_step-PointerAt (before ++ (wire ++ after)) offset (length before) p)
    ∙ name_loop-Encoded (trim_suffix dot name) before after 272 (some (offset + 2)) 1
        (encode_name-Encoded name h) (omega arith)
