-- ===== src/Dns/Name/Bounds.antt =====
-- `decodeName` returns on every message, never reads outside it, and makes progress.
use go_network_lab.Base.{
  ℕ, zero, suc, ◌+◌, ◌-◌, ◌≤◌, ◌<◌, ◌≡◌, ◌≢◌, refl, inl, inr, List, [], ◌∷◌, ◌++◌, Option, none,
  some, arith, Bytes, length, length-append, take, drop, length-take, length-drop, bit_and, leb,
  ◌==◌, Bool-cases, ok, Returns, Returns-bind, index_lt, slice_lem,
}
use go_network_lab.Base.Strings.{join}
use go_network_lab.Dns.Encode.{dot}
use go_network_lab.Dns.Message.{Error}
use go_network_lab.Dns.Name.{
  Cursor, Step, done, again, keep_or, max_name_jumps, follow_pointer, take_label, name_at,
  name_step, name_loop, cursor_at, name_fuel, decode_name,
}

-- The bytes of the labels on the wire, each with its length byte.
abbrev pub wire_length : List Bytes → ℕ
wire_length [] = 0
wire_length (l ∷ ls) = 1 + length l + wire_length ls

wire_length-append : (xs ys : List Bytes) → wire_length (xs ++ ys) ≡ wire_length xs + wire_length ys
wire_length-append [] ys = omega arith
wire_length-append (x ∷ xs) ys = omega (arith, wire_length-append xs ys)

length-join-le : (sep : ℕ) (ls : List Bytes) → length (join sep ls) ≤ wire_length ls - 1
unfolding join
length-join-le sep [] = omega arith
length-join-le sep (l ∷ []) = omega arith
length-join-le sep (l ∷ m ∷ ls) =
    omega (arith, length-append {0} l (sep ∷ join sep (m ∷ ls)), length-join-le sep (m ∷ ls))

-- The position behind the name lies after `offset` and inside the message.
abbrev NextWithin : Bytes → ℕ → Option ℕ → Type 0
NextWithin bytes offset none = Unit
NextWithin bytes offset (some n) = (offset < n) × (n ≤ length bytes)

record CursorInv (bytes : Bytes) (offset : ℕ) (c : Cursor) : Type 0 where
  next_within : NextWithin bytes offset c.next_offset
  at_start : c.next_offset ≡ none → offset ≤ c.current
  counted : c.name_length ≡ 1 + wire_length c.labels
  short : c.name_length ≤ 255
  few_jumps : c.jumps ≤ max_name_jumps

-- It falls with each round.
abbrev rounds_left : Cursor → ℕ
rounds_left c = (255 - c.name_length) + (max_name_jumps - c.jumps)

abbrev pub NameWithin : Bytes → ℕ → Bytes × ℕ → Type 0
NameWithin bytes offset (name, next) = (offset < next) × (next ≤ length bytes) × (length name ≤ 253)

abbrev StepWithin : Bytes → ℕ → Cursor → Step → Type 0
StepWithin bytes offset c (done name next) = NameWithin bytes offset (name, next)
StepWithin bytes offset c (again c') = CursorInv bytes offset c' × (rounds_left c' < rounds_left c)

keep_or-within :
    (bytes : Bytes) (offset n : ℕ) (next : Option ℕ)
    → NextWithin bytes offset next
    → (next ≡ none → offset < n)
    → n ≤ length bytes
    → (offset < keep_or next n) × (keep_or next n ≤ length bytes)
keep_or-within bytes offset n none w first h = (first refl, h)
keep_or-within bytes offset n (some m) w first h = w

module _ (bytes : Bytes) (offset : ℕ) (c : Cursor) (inv : CursorInv bytes offset c) where
  next-within :
      (n : ℕ)
      → c.current < n
      → n ≤ length bytes
      → (offset < keep_or c.next_offset n) × (keep_or c.next_offset n ≤ length bytes)
  next-within n lt le =
      keep_or-within bytes offset n c.next_offset inv.next_within
        (λ e. omega (arith, inv.at_start e)) le

  follow_pointer-Returns :
      (len : ℕ)
      → c.current < length bytes
      → Returns (follow_pointer bytes c len) (StepWithin bytes offset c)
  unfolding follow_pointer
  follow_pointer-Returns len h = elim (Bool-cases (leb (length bytes) (c.current + 1))) [
    | inl cut ↦ rw (cut, follow_pointer) tt
    | inr whole ↦
        let (low, e) = index_lt {E = Error} bytes (c.current + 1) (ground arith) in
        let within = next-within (c.current + 2) (omega arith) (ground arith) in
        rw (whole, e, follow_pointer) (ground arith)
  ]

  take_label-Returns :
      (len : ℕ)
      → c.current < length bytes
      → len ≢ 0
      → Returns (take_label bytes c len) (StepWithin bytes offset c)
  unfolding take_label
  take_label-Returns len h nz =
      let fits = slice_lem {E = Error} bytes (c.current + 1) (c.current + 1 + len) (omega arith) in
      ground (
        arith,
        fits,
        length-take (c.current + 1 + len - (c.current + 1)) (drop (c.current + 1) bytes),
        length-drop (c.current + 1) bytes,
        wire_length-append c.labels
            (take (c.current + 1 + len - (c.current + 1)) (drop (c.current + 1) bytes) ∷ []),
      )

  name_at-Returns :
      (len : ℕ)
      → c.current < length bytes
      → Returns (name_at bytes c len) (StepWithin bytes offset c)
  unfolding name_at
  name_at-Returns len h = elim (Bool-cases (len == 0)) [
    | inl zero_byte ↦
        rw (zero_byte, name_at)
          (let (lt, le) = next-within (c.current + 1) (omega arith) (omega arith) in
            (lt, le, omega (arith, length-join-le dot c.labels, inv.counted, inv.short)))
    | inr other ↦ elim (Bool-cases (bit_and len 0xC0 == 0xC0)) [
      | inl pointer ↦ rw (other, pointer, name_at) (follow_pointer-Returns len h)
      | inr label ↦ rw (other, label, name_at) (take_label-Returns len h (ground arith))
    ]
  ]

  name_step-Returns : Returns (name_step bytes c) (StepWithin bytes offset c)
  unfolding name_step
  name_step-Returns = elim (Bool-cases (leb (length bytes) c.current)) [
    | inl out ↦ rw (out, name_step) tt
    | inr within ↦
        let (len, e) = index_lt {E = Error} bytes c.current (ground arith) in
        rw (within, e, name_step) (name_at-Returns len (ground arith))
  ]

name_loop-Returns :
    (fuel : ℕ) (bytes : Bytes) (offset : ℕ) (c : Cursor)
    → CursorInv bytes offset c
    → rounds_left c < fuel
    → Returns (name_loop fuel bytes c) (NameWithin bytes offset)
unfolding name_loop
name_loop-Returns zero bytes offset c inv h = absurd (omega arith)
name_loop-Returns (suc fuel) bytes offset c inv h =
    Returns-bind (StepWithin bytes offset c) (NameWithin bytes offset) (name_step bytes c) _
      (name_step-Returns bytes offset c inv)
      (continue λ c' inv' less. name_loop-Returns fuel bytes offset c' inv' less)
  where
    continue :
        ((c' : Cursor)
          → CursorInv bytes offset c'
          → rounds_left c' < fuel
          → Returns (name_loop fuel bytes c') (NameWithin bytes offset))
        → (s : Step) → StepWithin bytes offset c s
        → Returns
            (elim s [ done name next ↦ ok (name, next) | again c' ↦ name_loop fuel bytes c' ])
            (NameWithin bytes offset)
    continue rest (done name next) w = w
    continue rest (again c') (inv', less) = rest c' inv' (omega arith)

-- On every message and at every offset `decodeName` returns, whatever the compression pointers
-- are: the rounds of its loop are bounded, no read is out of range, and if it returns a name, that
-- has at most 253 bytes and the next offset lies behind `offset` and within the message.
pub decode_name-Returns :
    (bytes : Bytes) (offset : ℕ) → Returns (decode_name bytes offset) (NameWithin bytes offset)
unfolding decode_name
decode_name-Returns bytes offset =
    name_loop-Returns name_fuel bytes offset (cursor_at offset)
      (record {
        next_within = tt;
        at_start = λ _. omega arith;
        counted = refl;
        short = omega arith;
        few_jumps = omega arith;
      })
      (omega arith)
