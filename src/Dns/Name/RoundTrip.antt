-- ===== src/Dns/Name/RoundTrip.antt =====
-- `decodeName` reads back what `encodeName` writes, in place and through a compression pointer.
use go_network_lab.Base.{
  ℕ, zero, suc, ◌+◌, ◌%◌, ◌≤◌, ◌<◌, ◌≡◌, refl, sym, ap, ◌∙◌, inl, inr, true, List, [], ◌∷◌, ◌++◌,
  append-nil, append_assoc, Option, none, arith, Bytes, length, length-append, null, All,
  bit_and_top2, ltb, Bool-cases, ok, >>=-eq-ok, index-append, slice, slice-append,
}
use go_network_lab.Base.Strings.{join, split, join-split, trim_suffix}
use go_network_lab.Dns.Encode.{dot, encode_labels, encode_trimmed, encode_name}
use go_network_lab.Dns.Message.{Error}
use go_network_lab.Dns.Name.{
  Cursor, done, again, keep_or, take_label, name_at, name_step, name_loop, cursor_at, name_fuel,
  decode_name,
}
use go_network_lab.Dns.Name.Bounds.{wire_length}

-- Labels as the message format has them.
abbrev pub wire_labels : List Bytes → Bytes
wire_labels [] = []
wire_labels (l ∷ ls) = length l ∷ (l ++ wire_labels ls)

abbrev pub IsLabel : Bytes → Type 0
IsLabel l = (0 < length l) × (length l ≤ 63)

length-wire_labels : (ls : List Bytes) → length (wire_labels ls) ≡ wire_length ls
length-wire_labels [] = refl
length-wire_labels (l ∷ ls) =
    omega (arith, length-append {0} l (wire_labels ls), length-wire_labels ls)

-- `encodeName`'s loop writes the labels, and lets no other through.
encode_labels-eq-ok :
    (ls : List Bytes) (encoded : Bytes) {wire : Bytes}
    → encode_labels encoded ls ≡ ok wire
    → (wire ≡ encoded ++ wire_labels ls) × All IsLabel ls
unfolding encode_labels
encode_labels-eq-ok [] encoded h = (ground (arith, append-nil encoded), tt)
encode_labels-eq-ok ([] ∷ ls) encoded h = cc
encode_labels-eq-ok ((x ∷ l) ∷ ls) encoded {wire} h = elim (Bool-cases (ltb 63 (suc (length l)))) [
  | inl long ↦ absurd (ground arith)
  | inr short ↦
      let size : suc (length l) % 256 ≡ suc (length l) = ground arith in
      let le : suc (length l) ≤ 63 = ground arith in
      let ih =
        encode_labels-eq-ok ls (encoded ++ (suc (length l) % 256 ∷ []) ++ x ∷ l) {wire = wire}
          (ground arith) in
      (
        ih.0
            ∙ rw size (
                append_assoc (encoded ++ suc (length l) ∷ []) (x ∷ l) (wire_labels ls)
                ∙ append_assoc encoded (suc (length l) ∷ []) (x ∷ l ++ wire_labels ls)),
        ((omega arith, le), ih.1),
      )
]

module _ (before : Bytes) (l : Bytes) (after : Bytes) where
  -- The message around one label.
  abbrev around : Bytes
  around = before ++ (length l ∷ (l ++ after))

  length-around : length around ≡ length before + 1 + length l + length after
  length-around =
      omega (arith, length-append {0} before (length l ∷ (l ++ after)), length-append {0} l after)

  slice-around : slice {E = Error} around (length before + 1) (length before + 1 + length l) ≡ ok l
  slice-around =
      let first : Bytes = before ++ length l ∷ [] in
      let behind : length first ≡ length before + 1 =
        omega (arith, length-append {0} before (length l ∷ [])) in
      let split_here : first ++ (l ++ after) ≡ around =
        append_assoc before (length l ∷ []) (l ++ after) in
      rw (split_here, behind) at
        (slice-append {E = Error} first l after (length before + 1 + length l) (omega arith))

  name_step_label :
      (c : Cursor)
      → c.current ≡ length before
      → IsLabel l
      → c.name_length + (1 + length l) ≤ 255
      → name_step around c
        ≡ ok (
            again (record c {
              labels = c.labels ++ l ∷ [];
              current = length before + 1 + length l;
              name_length = c.name_length + (1 + length l);
            }))
  unfolding name_step name_at take_label
  name_step_label c at (pos, le) short = ground (
    arith,
    index-append {E = Error} before (length l) (l ++ after),
    length-around,
    slice-around,
    bit_and_top2 (length l),
  )

name_step_end :
    (before after : Bytes) (c : Cursor)
    → c.current ≡ length before
    → name_step (before ++ 0 ∷ after) c
      ≡ ok (done (join dot c.labels) (keep_or c.next_offset (length before + 1)))
unfolding name_step name_at
name_step_end before after c at =
    ground (arith, index-append {E = Error} before 0 after, length-append {0} before (0 ∷ after))

pub name_loop_again :
    (fuel : ℕ) (bytes : Bytes) (c : Cursor) {c' : Cursor}
    → name_step bytes c ≡ ok (again c')
    → name_loop (suc fuel) bytes c ≡ name_loop fuel bytes c'
unfolding name_loop
name_loop_again fuel bytes c e = rw (e, name_loop)

-- The rest of the loop, from the cursor at the first byte of the labels.
name_loop-wire_labels :
    (ls : List Bytes) (fuel : ℕ) (before after : Bytes) (c : Cursor)
    → length ls < fuel
    → c.current ≡ length before
    → All IsLabel ls
    → c.name_length + wire_length ls ≤ 255
    → name_loop fuel (before ++ (wire_labels ls ++ 0 ∷ after)) c
      ≡ ok (join dot (c.labels ++ ls), keep_or c.next_offset (length before + (wire_length ls + 1)))
unfolding name_loop
name_loop-wire_labels ls zero before after c h at good short = absurd (omega arith)
name_loop-wire_labels [] (suc fuel) before after c h at good short =
    let one : length before + (0 + 1) ≡ length before + 1 = omega arith in
    rw (name_step_end before after c at, one, append-nil)
name_loop-wire_labels (l ∷ ls) (suc fuel) before after c h at good short =
    let rest : Bytes = wire_labels ls ++ 0 ∷ after in
    let more : Cursor = record c {
      labels = c.labels ++ l ∷ [];
      current = length before + 1 + length l;
      name_length = c.name_length + (1 + length l);
    } in
    let before' : Bytes = before ++ (length l ∷ l) in
    let size : length before' ≡ length before + 1 + length l =
      omega (arith, length-append {0} before (length l ∷ l)) in
    let here : before ++ (wire_labels (l ∷ ls) ++ 0 ∷ after) ≡ before ++ (length l ∷ (l ++ rest)) =
      ap (λ (t : Bytes). before ++ (length l ∷ t)) (append_assoc l (wire_labels ls) (0 ∷ after)) in
    let there : before' ++ rest ≡ before ++ (length l ∷ (l ++ rest)) =
      append_assoc before (length l ∷ l) rest in
    let stepped = name_step_label before l rest c at good.0 (omega arith) in
    let ih =
      name_loop-wire_labels ls fuel before' after more (omega arith) (omega arith) good.1
        (omega arith) in
    let regroup : (c.labels ++ l ∷ []) ++ ls ≡ c.labels ++ l ∷ ls =
      append_assoc c.labels (l ∷ []) ls in
    let total : length before' + (wire_length ls + 1) ≡ length before + (wire_length (l ∷ ls) + 1) =
      omega arith in
    ap (λ (t : Bytes). name_loop (suc fuel) t c) here
    ∙ name_loop_again fuel _ c stepped
    ∙ ap (λ (t : Bytes). name_loop fuel t more) (sym there)
    ∙ ih
    ∙ rw (regroup, total)

length-le-wire_length : (ls : List Bytes) → length ls ≤ wire_length ls
length-le-wire_length [] = omega arith
length-le-wire_length (l ∷ ls) = omega (arith, length-le-wire_length ls)

-- What `encodeName` returns: labels of 1 to 63 bytes, and a zero byte.
pub record Encoded (name : Bytes) (wire : Bytes) : Type 0 where
  pub labels : List Bytes
  pub written : wire ≡ wire_labels labels ++ 0 ∷ []
  pub names : join dot labels ≡ name
  pub are_labels : All IsLabel labels
  pub short : 1 + wire_length labels ≤ 255

encode_trimmed-Encoded :
    (name : Bytes) {wire : Bytes} → encode_trimmed name ≡ ok wire → Encoded name wire
unfolding encode_trimmed
encode_trimmed-Encoded name {wire} h =
    let (written, e, later) = >>=-eq-ok (encode_labels [] (split dot name)) _ h in
    let (labels, good) = encode_labels-eq-ok (split dot name) [] e in
    let size : length (written ++ 0 ∷ []) ≡ length written + 1 =
      length-append {0} written (0 ∷ []) in
    record {
      labels = split dot name;
      written = ground (arith, labels);
      names = join-split dot name;
      are_labels = good;
      short = ground (arith, labels, size, length-wire_labels (split dot name));
    }

null_iff : (s : Bytes) → null s ≡ true → s ≡ []
null_iff [] h = refl
null_iff (x ∷ s) h = cc

pub encode_name-Encoded :
    (name : Bytes) {wire : Bytes} → encode_name name ≡ ok wire → Encoded (trim_suffix dot name) wire
unfolding encode_name join
encode_name-Encoded name h = elim (Bool-cases (null name)) [
  | inl empty ↦ absurd (ground arith)
  | inr some_bytes ↦ elim (Bool-cases (null (trim_suffix dot name))) [
    | inl root ↦ record {
      labels = [];
      written = ground arith;
      names = sym (null_iff _ root);
      are_labels = tt;
      short = omega arith;
    }
    | inr other ↦ encode_trimmed-Encoded (trim_suffix dot name) (ground arith)
  ]
]

-- The loop at the first byte of an encoded name.
pub name_loop-Encoded :
    (name before after : Bytes) {wire : Bytes} (fuel : ℕ) (next : Option ℕ) (jumps : ℕ)
    → Encoded name wire
    → 254 < fuel
    → name_loop fuel
        (before ++ (wire ++ after))
        (record (cursor_at (length before)) { next_offset = next; jumps = jumps })
      ≡ ok (name, keep_or next (length before + length wire))
name_loop-Encoded name before after fuel next jumps e f =
    let regroup : (wire_labels e.labels ++ 0 ∷ []) ++ after ≡ wire_labels e.labels ++ 0 ∷ after =
      append_assoc (wire_labels e.labels) (0 ∷ []) after in
    let size : length (wire_labels e.labels ++ 0 ∷ []) ≡ wire_length e.labels + 1 =
      omega
        (arith, length-append {0} (wire_labels e.labels) (0 ∷ []), length-wire_labels e.labels) in
    let enough : length e.labels < fuel = omega (arith, length-le-wire_length e.labels, e.short) in
    rw (e.written, regroup, size, ← e.names)
      (name_loop-wire_labels e.labels fuel before after _ enough refl e.are_labels e.short)

-- A name that `encodeName` accepts is read back by `decodeName`, without its trailing dot and
-- with the offset behind it, wherever the encoding stands in a message.
pub decode_name-encode_name :
    (name before after : Bytes) {wire : Bytes}
    → encode_name name ≡ ok wire
    → decode_name (before ++ (wire ++ after)) (length before)
      ≡ ok (trim_suffix dot name, length before + length wire)
unfolding decode_name
decode_name-encode_name name before after h =
    name_loop-Encoded (trim_suffix dot name) before after name_fuel none 0
      (encode_name-Encoded name h) (omega arith)
