-- ===== src/Http/Body/Rounds.antt =====
-- One chunk of a chunked body, as framing.go reads it, and the grammar of the whole.
use go_network_lab.Base.{
  ℕ, ◌+◌, ◌-◌, ◌<◌, ◌≡◌, ◌≢◌, refl, sym, ap, ◌∙◌, inl, inr, Bool, true, false, not, ◌||◌, [], ◌++◌,
  append-nil, Option, none, some, Bytes, null, bytes_eq, bytes_eq_iff, length, ltb, ◌==◌,
  if◌then◌else◌, Bool-cases, arith, Outcome, ok, err, panic, stuck, ◌>>=◌, ◌>>◌, fail_if,
}
use go_network_lab.Http.Reader.{
  HttpError, Reader, read_bytes, read_chunk_line, crlf, invalid_chunk_size, chunk_too_large,
  no_crlf_after_chunk,
}
use go_network_lab.Http.Syntax.{every}
use go_network_lab.Http.Reader.Meaning.{arriving, null_length}
use go_network_lab.Http.Reader.Progress.{Uses, read_bytes-ReadsBytes}
use go_network_lab.Http.Reader.Lines.{read_chunk_line-ReadsLine}
use go_network_lab.Http.Reader.Behaves.{
  Behaves, Behaves-fail_if, Behaves-later, Behaves-bytes, Behaves-line,
}
use go_network_lab.Http.Body.{chunk_size, is_hex, max_int, read_chunk, chunk_round}

-- A line of hexadecimal digits, of this value.
abbrev pub SizeLine : Bytes → ℕ → Type 0
SizeLine line size = (line ≢ []) × (every is_hex line ≡ true) × (chunk_size line ≡ some size)

-- The text of a chunked body without trailers, and the body.
pub data ChunkedText : Bytes → Bytes → Type 0 where
  last_chunk : (line : Bytes) → SizeLine line 0 → ChunkedText (line ++ (crlf ++ crlf)) []
  chunk :
      (size : ℕ) (line bytes text body : Bytes)
      → SizeLine line size
      → 0 < size
      → length bytes ≡ size
      → ChunkedText text body
      → ChunkedText (line ++ (crlf ++ (bytes ++ (crlf ++ text)))) (bytes ++ body)

-- The end of a round, behind the line: the chunk is followed by CRLF, and the body grows by it, or ends
-- where it is empty.
abbrev ChunkRead : Bytes → Reader → ℕ → Bool × Bytes × Reader → Type 0
ChunkRead body r size (ended, body', r') =
    (bytes : Bytes) × (length bytes ≡ size)
    × (bytes ++ (crlf ++ arriving r') ≡ arriving r)
    × (ended ≡ (size == 0))
    × (body' ≡ body ++ bytes)
    × Uses r (size + 2) r'

chunk_end :
    (body : Bytes) (r r1 r2 : Reader) (size : ℕ) (bytes ending : Bytes)
    → length bytes ≡ size
    → bytes ++ arriving r1 ≡ arriving r
    → Uses r size r1
    → ending ++ arriving r2 ≡ arriving r1
    → Uses r1 2 r2
    → ending ≡ crlf
    → ChunkRead body r size (if size == 0 then (true, body, r2) else (false, body ++ bytes, r2))
chunk_end body r r1 r2 size bytes ending n w (u, l) w2 (u2, l2) e =
    let whole : bytes ++ (crlf ++ arriving r2) ≡ arriving r =
      ap (λ x. bytes ++ (x ++ arriving r2)) (sym e) ∙ ap (◌++◌ bytes) w2 ∙ w in
    let used : Uses r (size + 2) r2 = (omega arith, λ x. l2 (l x)) in
    elim (Bool-cases (size == 0)) [
      | inr more ↦ rw more (bytes, n, whole, refl, refl, used)
      | inl last ↦
          let zero_length : length bytes ≡ 0 = ground arith in
          let empty : bytes ≡ [] = null_length bytes zero_length in
          rw last (bytes, n, whole, refl, sym (ap (◌++◌ body) empty ∙ append-nil body), used)
    ]

-- A round: a line with a size, and what it announces.
abbrev pub RoundRead : Bytes → Reader → Bool × Bytes × Reader → Type 0
RoundRead body r (ended, body', r') =
    (line : Bytes) × (size : ℕ) × (bytes : Bytes) × SizeLine line size
    × (length bytes ≡ size)
    × (line ++ (crlf ++ (bytes ++ (crlf ++ arriving r'))) ≡ arriving r)
    × (ended ≡ (size == 0))
    × (body' ≡ body ++ bytes)
    × Uses r (length line + 2 + (size + 2)) r'

behind_line :
    (body line : Bytes) (r r1 : Reader) (size : ℕ) (x : Bool × Bytes × Reader)
    → line ++ (crlf ++ arriving r1) ≡ arriving r
    → Uses r (length line + 2) r1
    → SizeLine line size
    → ChunkRead body r1 size x
    → RoundRead body r x
behind_line body line r r1 size (ended, body', r') w (u, l) s (bytes, n, w2, e, b, (u2, l2)) = (
  line,
  size,
  bytes,
  s,
  n,
  ap (λ x. line ++ (crlf ++ x)) w2 ∙ w,
  e,
  b,
  (omega arith, λ x. l2 (l x)),
)

chunk_behind :
    (body line : Bytes) (r r1 : Reader) (size : ℕ) (m : Outcome HttpError (Bool × Bytes × Reader))
    → line ++ (crlf ++ arriving r1) ≡ arriving r
    → Uses r (length line + 2) r1
    → SizeLine line size
    → Behaves r1 (ChunkRead body r1 size) m
    → Behaves r (RoundRead body r) m
chunk_behind body line r r1 size (ok x) w u s h = behind_line body line r r1 size x w u s h
chunk_behind body line r r1 size (err e) w u s h = tt
chunk_behind body line r r1 size panic w u s h = tt
chunk_behind body line r r1 size stuck w u s h = λ l. h (u.1 l)

module _ (max_alloc : ℕ) where
  read_chunk-ChunkRead :
      (body : Bytes) (r : Reader) (size : ℕ)
      → Behaves r (ChunkRead body r size) (read_chunk max_alloc body r size)
  unfolding read_chunk
  read_chunk-ChunkRead body r size =
      let P = ChunkRead body r size in
      let kept : Bytes → Bytes × Reader → Outcome HttpError (Bool × Bytes × Reader) =
        λ bytes (ending, r2).
          fail_if (not (bytes_eq ending crlf)) no_crlf_after_chunk
          >> ok (if size == 0 then (true, body, r2) else (false, body ++ bytes, r2)) in
      Behaves-bytes r size P (read_bytes max_alloc r size)
        (λ (bytes, r1). read_bytes max_alloc r1 2 >>= kept bytes)
        (read_bytes-ReadsBytes max_alloc r size)
        λ bytes r1 n w u. Behaves-later r r1 P (read_bytes max_alloc r1 2 >>= kept bytes) (u.1) (
          Behaves-bytes r1 2 P (read_bytes max_alloc r1 2) (kept bytes)
            (read_bytes-ReadsBytes max_alloc r1 2)
            λ ending r2 n2 w2 u2.
              Behaves-fail_if r1 P (not (bytes_eq ending crlf)) no_crlf_after_chunk
                (ok (if size == 0 then (true, body, r2) else (false, body ++ bytes, r2)))
                λ e.
                  chunk_end body r r1 r2 size bytes ending n w u w2 u2
                    ((bytes_eq_iff ending crlf).0 (ground arith)))

  sized_chunk : Bytes → Reader → Option ℕ → Outcome HttpError (Bool × Bytes × Reader)
  sized_chunk body r1 none = err chunk_too_large
  sized_chunk body r1 (some size) =
      let chunk = read_chunk max_alloc body r1 size in
      if ltb (max_int - length body) size then err chunk_too_large else chunk

  sized_chunk-RoundRead :
      (body line : Bytes) (r r1 : Reader) (o : Option ℕ)
      → line ++ (crlf ++ arriving r1) ≡ arriving r
      → Uses r (length line + 2) r1
      → line ≢ []
      → every is_hex line ≡ true
      → chunk_size line ≡ o
      → Behaves r (RoundRead body r) (sized_chunk body r1 o)
  unfolding sized_chunk
  sized_chunk-RoundRead body line r r1 none w u filled hexed e = tt
  sized_chunk-RoundRead body line r r1 (some size) w u filled hexed e =
      elim (Bool-cases (ltb (max_int - length body) size)) [
        | inl large ↦ rw large tt
        | inr small ↦ rw small (
            chunk_behind body line r r1 size (read_chunk max_alloc body r1 size) w u
              (filled, hexed, e) (read_chunk-ChunkRead body r1 size))
      ]

  pub chunk_round-RoundRead :
      (body : Bytes) (r : Reader) → Behaves r (RoundRead body r) (chunk_round max_alloc body r)
  unfolding chunk_round sized_chunk
  chunk_round-RoundRead body r =
      Behaves-line r (RoundRead body r) (read_chunk_line r) _ (read_chunk_line-ReadsLine r)
        λ line r1 w u.
          Behaves-fail_if r (RoundRead body r) (null line || not (every is_hex line))
            invalid_chunk_size _
            λ e.
              let filled : null line ≡ false = ground arith in
              let hexed : every is_hex line ≡ true = ground arith in
              let some_digits : line ≢ [] = λ q. let bad = ap null q in cc in
              sized_chunk-RoundRead body line r r1 (chunk_size line) w u some_digits hexed refl
