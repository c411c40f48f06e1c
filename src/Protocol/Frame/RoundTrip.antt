-- ===== src/Protocol/Frame/RoundTrip.antt =====
-- A frame that `Write` sends is what `Read` reads, and the only thing that it reads.
use go_network_lab.Base.{
  ℕ, ◌+◌, ◌%◌, ◌≤◌, ◌<◌, ◌≡◌, refl, sym, ap, ◌∙◌, inl, inr, true, false, List, [], ◌++◌,
  append_assoc, Bytes, length, length-append, drop, take-append, drop-append, ltb, Bool-cases,
  arith, u32_mod, put_uint32, uint32, uint32-put_uint32, ok, err, panic, stuck,
}
use go_network_lab.Base.Io.{IoError, Stream, read_full, WriteResult, write_full}
use go_network_lab.Base.Io.Reading.{to_come, read_full_enough}
use go_network_lab.Base.Io.Writing.{Sends, write_full-Sends}
use go_network_lab.Protocol.Frame.{
  Codec, max_frame_size, Written, write_second, write, decode, read_sized, read_behind, read,
  size_too_large,
}

-- A payload behind its length.
abbrev pub frame : Bytes → Bytes
frame payload = put_uint32 (length payload) ++ payload

after_prefix : (xs ys : Bytes) → drop (length xs) (xs ++ ys) ≡ ys
after_prefix xs ys =
    let z : length xs + 0 ≡ length xs = omega arith in rw z at (drop-append xs ys 0)

append-cancel : (xs ys zs : Bytes) → xs ++ ys ≡ xs ++ zs → ys ≡ zs
append-cancel xs ys zs e = sym (after_prefix xs ys) ∙ ap (drop (length xs)) e ∙ after_prefix xs zs

Sends-ok :
    (bytes sent : Bytes) (r : Written IoError)
    → Sends bytes sent r
    → r.0 ≡ ok tt
    → r.1 ≡ sent ++ bytes
Sends-ok bytes sent (ok u, sent', plan) h e = h
Sends-ok bytes sent (err x, sent', plan) h e = cc
Sends-ok bytes sent (panic, sent', plan) h e = cc
Sends-ok bytes sent (stuck, sent', plan) h e = cc

write_second-ok :
    (header payload sent : Bytes) (first : Written IoError)
    → Sends header sent first
    → (write_second payload first).0 ≡ ok tt
    → (write_second payload first).1 ≡ (sent ++ header) ++ payload
unfolding write_second
write_second-ok header payload sent (ok u, sent', plan) h e =
    let second = write_full payload plan sent' in
    let done : second.0 ≡ ok tt = ground arith in
    Sends-ok payload sent' second (write_full-Sends payload plan sent') done
    ∙ ap (λ s. s ++ payload) h
write_second-ok header payload sent (err x, sent', plan) h e = cc
write_second-ok header payload sent (panic, sent', plan) h e = cc
write_second-ok header payload sent (stuck, sent', plan) h e = cc

module _ {A : Type 0} {Plain : A → Type 0} (codec : Codec A Plain) where
  -- If `Write` succeeds, whatever the writer did, then it has sent the one frame.
  write-ok :
      (v : A) (plan : List WriteResult) (sent : Bytes)
      → (write codec v plan sent).0 ≡ ok tt
      → (length (codec.marshal v) ≤ max_frame_size)
        × ((write codec v plan sent).1 ≡ sent ++ frame (codec.marshal v))
  unfolding write
  write-ok v plan sent e = elim (Bool-cases (ltb max_frame_size (length (codec.marshal v)))) [
    | inl large ↦ let bad : err _ ≡ ok tt = rw (large, write) at e in cc
    | inr small ↦
        let payload = codec.marshal v in
        let header = put_uint32 (length payload % u32_mod) in
        let first = write_full header plan sent in
        let done : (write_second payload first).0 ≡ ok tt = rw (small, write) at e in
        let true_length : length payload % u32_mod ≡ length payload = ground arith in
        let whole : (write_second payload first).1 ≡ sent ++ frame payload =
          write_second-ok header payload sent first (write_full-Sends header plan sent) done
          ∙ append_assoc sent header payload
          ∙ ap (λ (n : ℕ). sent ++ (put_uint32 n ++ payload)) true_length in
        (ground arith, rw (small, write) whole)
  ]

  -- The header of a frame is read as the length of its payload.
  read-header :
      (payload following : Bytes) (s : Stream)
      → length payload ≤ max_frame_size
      → to_come s ≡ frame payload ++ following
      → (s' : Stream) × (read codec s ≡ read_sized codec (length payload) s')
        × (to_come s' ≡ payload ++ following)
        × (s'.failure ≡ s.failure)
  unfolding read read_behind
  read-header payload following s small bytes =
      let n = length payload in
      let (rest, got, left, f) = read_full_enough 4 s (rw bytes (omega arith)) in
      let header : read_full 4 s ≡ (ok (put_uint32 n), rest) = rw bytes at got in
      let size : uint32 {E = IoError} (put_uint32 n) ≡ ok n =
        uint32-put_uint32 {E = IoError} n [] (omega arith) in
      (rest, rw (header, read) (rw (size, read_behind) refl), left ∙ ap (drop 4) bytes, f)

  read_sized-lem :
      (payload following : Bytes) (s : Stream)
      → length payload ≤ max_frame_size
      → to_come s ≡ payload ++ following
      → (s' : Stream) × (read_sized codec (length payload) s ≡ (decode codec payload, s'))
        × (to_come s' ≡ following)
        × (s'.failure ≡ s.failure)
  unfolding read_sized
  read_sized-lem payload following s small bytes =
      let (rest, read, left, f) =
        read_full_enough (length payload) s
          (rw bytes (omega (arith, length-append {0} payload following))) in
      let got : read_full (length payload) s ≡ (ok payload, rest) =
        rw (bytes, take-append payload following) at read in
      let fits : ltb max_frame_size (length payload) ≡ false = ground arith in
      (
        rest,
        rw (fits, got, read_sized) refl,
        left ∙ ap (drop (length payload)) bytes ∙ after_prefix payload following,
        f,
      )

  pub read-frame :
      (payload following : Bytes) (s : Stream)
      → length payload ≤ max_frame_size
      → to_come s ≡ frame payload ++ following
      → (s' : Stream) × (read codec s ≡ (decode codec payload, s'))
        × (to_come s' ≡ following)
        × (s'.failure ≡ s.failure)
  read-frame payload following s small bytes =
      let (s1, header, tail, f) = read-header payload following s small bytes in
      let (s2, body, rest, g) = read_sized-lem payload following s1 small tail in
      (s2, header ∙ body, rest, g ∙ f)

  pub decode-marshal : (v : A) → Plain v → decode codec (codec.marshal v) ≡ ok v
  unfolding decode
  decode-marshal v plain = rw (codec.restored v plain, decode) refl

  -- A plain value that `Write` has sent without an error is what `Read` reads from the other end,
  -- whatever was sent before and follows, and however writes and reads cut the stream into pieces.
  pub read-write :
      (v : A) (plan : List WriteResult) (before following : Bytes) (s : Stream)
      → Plain v
      → (write codec v plan before).0 ≡ ok tt
      → before ++ to_come s ≡ (write codec v plan before).1 ++ following
      → (s' : Stream) × (read codec s ≡ (ok v, s')) × (to_come s' ≡ following)
  read-write v plan before following s plain done bytes =
      let (small, sent) = write-ok v plan before done in
      let behind : to_come s ≡ frame (codec.marshal v) ++ following =
        append-cancel before (to_come s) (frame (codec.marshal v) ++ following) (
          bytes
          ∙ ap (λ x. x ++ following) sent
          ∙ append_assoc before (frame (codec.marshal v)) following) in
      let (s', got, rest, _) = read-frame (codec.marshal v) following s small behind in
      (s', got ∙ ap (λ r. (r, s')) (decode-marshal v plain), rest)

  -- `Read` fails on a length beyond the limit before it reads, or has room for, any of the payload.
  read-too_large :
      (size : ℕ) (following : Bytes) (s : Stream)
      → max_frame_size < size
      → size < u32_mod
      → to_come s ≡ put_uint32 size ++ following
      → (s' : Stream) × (read codec s ≡ (err (size_too_large size), s')) × (to_come s' ≡ following)
  unfolding read read_behind read_sized
  read-too_large size following s large fits bytes =
      let (rest, got, left, f) = read_full_enough 4 s (rw bytes (omega arith)) in
      let header : read_full 4 s ≡ (ok (put_uint32 size), rest) = rw bytes at got in
      let known : uint32 {E = IoError} (put_uint32 size) ≡ ok size =
        uint32-put_uint32 {E = IoError} size [] fits in
      let over : ltb max_frame_size size ≡ true = ground arith in
      (rest, rw (header, read) (rw (known, over, read_behind) refl), left ∙ ap (drop 4) bytes)
