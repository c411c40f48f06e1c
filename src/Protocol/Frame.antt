-- ===== src/Protocol/Frame.antt =====
-- protocol/protocol.go: `Write`, `Read` and `writeAll`. Package encoding/json is the parameter
-- `Codec`.
pub mod RoundTrip
use go_network_lab.Base.{
  ℕ, ◌%◌, ◌≡◌, ◌⊎◌, inl, inr, Bool, List, [], ◌++◌, Bytes, length, ltb, if◌then◌else◌, u32_mod,
  put_uint32, uint32, Outcome, ok, err, panic, stuck, wrap_err,
}
use go_network_lab.Base.Io.{IoError, Stream, read_full, then_read, WriteResult, write_full}

-- What is used of encoding/json for the values of one type: `Marshal`, which does not fail on these
-- structs, and `Unmarshal`, which restores what `Marshal` wrote of a `Plain` value.
pub record Codec (A : Type 0) (Plain : A → Type 0) : Type 1 where
  pub JsonError : Type 0
  pub marshal : A → Bytes
  pub unmarshal : Bytes → A ⊎ JsonError
  pub restored : (a : A) → Plain a → unmarshal (marshal a) ≡ inl a

abbrev pub max_frame_size : ℕ
max_frame_size = 1048576

pub data WriteError : Type 0 where
  frame_too_large : ℕ → WriteError
  write_length write_payload : IoError → WriteError

pub data ReadError (E : Type 0) : Type 0 where
  size_too_large : ℕ → ReadError E
  read_length read_payload : IoError → ReadError E
  decode_failed : E → ReadError E

-- What a writer has done: its result, the bytes sent, and the calls of `Write` left.
abbrev pub Written : Type 0 → Type 0
Written E = Outcome E (Unit {0}) × Bytes × List WriteResult

-- The second call of `writeAll`, unless the first has failed.
unfoldable pub write_second : Bytes → Written IoError → Written WriteError
write_second payload (ok _, sent, plan) =
    let (r, sent', plan') = write_full payload plan sent in (wrap_err write_payload r, sent', plan')
write_second payload (err e, sent, plan) = (err (write_length e), sent, plan)
write_second payload (panic, sent, plan) = (panic, sent, plan)
write_second payload (stuck, sent, plan) = (stuck, sent, plan)

module _ {A : Type 0} {Plain : A → Type 0} (codec : Codec A Plain) where
  -- `sent` is what was sent before.
  unfoldable pub write : A → List WriteResult → Bytes → Written WriteError
  write v plan sent =
      let payload = codec.marshal v in
      let done =
        write_second payload (write_full (put_uint32 (length payload % u32_mod)) plan sent) in
      if ltb max_frame_size (length payload)
      then (err (frame_too_large (length payload)), sent, plan)
      else done

  unfoldable pub decode : Bytes → Outcome (ReadError codec.JsonError) A
  decode payload = elim (codec.unmarshal payload) [ inl v ↦ ok v | inr e ↦ err (decode_failed e) ]

  unfoldable pub read_sized : ℕ → Stream → Outcome (ReadError codec.JsonError) A × Stream
  read_sized size s =
      let whole =
        then_read read_payload (read_full size s) (λ payload rest. (decode payload, rest)) in
      if ltb max_frame_size size then (err (size_too_large size), s) else whole

  unfoldable pub read_behind : Bytes → Stream → Outcome (ReadError codec.JsonError) A × Stream
  read_behind header s = elim (uint32 {E = IoError} header) [
    | ok size ↦ read_sized size s
    | _ ↦ (panic, s)
  ]

  unfoldable pub read : Stream → Outcome (ReadError codec.JsonError) A × Stream
  read s = then_read read_length (read_full 4 s) read_behind
