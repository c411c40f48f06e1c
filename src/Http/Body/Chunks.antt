-- ===== src/Http/Body/Chunks.antt =====
-- A chunked body against its grammar.
use go_network_lab.Base.{
  ℕ, zero, suc, ◌+◌, ◌<◌, ◌≡◌, sym, ap, ◌∙◌, subst, Bool, true, false, [], ◌++◌, append_assoc,
  Bytes, length, if◌then◌else◌, arith, Outcome, ok, err, panic, stuck,
}
use go_network_lab.Http.Reader.{HttpError, Reader, crlf, supply}
use go_network_lab.Http.Reader.Meaning.{arriving, null_length}
use go_network_lab.Http.Reader.Progress.{left, Uses}
use go_network_lab.Http.Reader.Behaves.{Behaves, Behaves-bind}
use go_network_lab.Http.Body.{chunk_round, chunk_loop, read_chunked_body}
use go_network_lab.Http.Body.Rounds.{
  SizeLine, ChunkedText, last_chunk, chunk, RoundRead, chunk_round-RoundRead,
}

joined :
    (line bytes text rest : Bytes)
    → (line ++ (crlf ++ (bytes ++ (crlf ++ text)))) ++ rest
      ≡ line ++ (crlf ++ (bytes ++ (crlf ++ (text ++ rest))))
joined line bytes text rest =
    append_assoc line (crlf ++ (bytes ++ (crlf ++ text))) rest
    ∙ ap (λ x. line ++ (crlf ++ x)) (append_assoc bytes (crlf ++ text) rest)

-- A result of the loop: a chunked text, and the body is what it carries.
abbrev pub LoopRead : Bytes → Reader → Bytes × Reader → Type 0
LoopRead body r (body', r') =
    (text : Bytes) × (data' : Bytes) × ChunkedText text data'
    × (body' ≡ body ++ data')
    × (text ++ arriving r' ≡ arriving r)
    × Uses r 4 r'

module _ (max_alloc : ℕ) where
  -- A round in front of the rest.
  more_text :
      (body body1 : Bytes) (r r1 : Reader) (size : ℕ) (line bytes : Bytes)
      (m : Outcome HttpError (Bytes × Reader))
      → SizeLine line size
      → 0 < size
      → length bytes ≡ size
      → line ++ (crlf ++ (bytes ++ (crlf ++ arriving r1))) ≡ arriving r
      → body1 ≡ body ++ bytes
      → Uses r 4 r1
      → Behaves r1 (LoopRead body1 r1) m
      → Behaves r (LoopRead body r) m
  more_text body body1 r r1 size line bytes (ok (body', r')) s p n w b (u, l)
        (text, data', c, b2, w2, (u2, l2)) =
      (
        line ++ (crlf ++ (bytes ++ (crlf ++ text))),
        bytes ++ data',
        chunk size line bytes text data' s p n c,
        b2 ∙ ap (λ x. x ++ data') b ∙ append_assoc body bytes data',
        joined line bytes text (arriving r')
            ∙ ap (λ x. line ++ (crlf ++ (bytes ++ (crlf ++ x)))) w2
            ∙ w,
        (omega arith, λ x. l2 (l x)),
      )
  more_text body body1 r r1 size line bytes (err e) s p n w b u h = tt
  more_text body body1 r r1 size line bytes panic s p n w b u h = tt
  more_text body body1 r r1 size line bytes stuck s p n w b u h = λ l. h (u.1 l)

  after_round :
      (fuel : ℕ) (body : Bytes) (r : Reader) (ended : Bool) (body1 : Bytes) (r1 : Reader)
      → left r < suc fuel
      → RoundRead body r (ended, body1, r1)
      → (left r1 < fuel → Behaves r1 (LoopRead body1 r1) (chunk_loop max_alloc fuel body1 r1))
      → Behaves r
          (LoopRead body r)
          (if ended then ok (body1, r1) else chunk_loop max_alloc fuel body1 r1)
  after_round fuel body r true body1 r1 h (line, size, bytes, s, n, w, e, b, (u, l)) ih =
      let last : size ≡ 0 = ground arith in
      let zero_length : length bytes ≡ 0 = omega arith in
      let empty : bytes ≡ [] = null_length bytes zero_length in
      (
        line ++ (crlf ++ crlf),
        [],
        last_chunk line (subst (SizeLine line) last s),
        b ∙ ap (◌++◌ body) empty,
        append_assoc line (crlf ++ crlf) (arriving r1)
            ∙ ap (λ x. line ++ (crlf ++ (x ++ (crlf ++ arriving r1)))) (sym empty)
            ∙ w,
        (omega arith, l),
      )
  after_round fuel body r false body1 r1 h (line, size, bytes, s, n, w, e, b, (u, l)) ih =
      let some_bytes : 0 < size = ground arith in
      more_text body body1 r r1 size line bytes (chunk_loop max_alloc fuel body1 r1) s some_bytes n
        w b (omega arith, l) (ih (omega arith))

  chunk_loop-LoopRead :
      (fuel : ℕ) (body : Bytes) (r : Reader)
      → left r < fuel
      → Behaves r (LoopRead body r) (chunk_loop max_alloc fuel body r)
  unfolding chunk_loop
  chunk_loop-LoopRead zero body r h = absurd (omega arith)
  chunk_loop-LoopRead (suc fuel) body r h =
      Behaves-bind r (RoundRead body r) (LoopRead body r) (chunk_round max_alloc body r) _
        (chunk_round-RoundRead max_alloc body r)
        λ (ended, body1, r1) round.
          after_round fuel body r ended body1 r1 h round (chunk_loop-LoopRead fuel body1 r1)

  -- What `readChunkedBody` returns is the body of a chunked text, which are the next bytes that arrive;
  -- the call blocks only if the connection never closes.
  pub read_chunked_body-Chunked :
      (r : Reader) → Behaves r (LoopRead [] r) (read_chunked_body max_alloc r)
  unfolding read_chunked_body
  read_chunked_body-Chunked r =
      chunk_loop-LoopRead (suc (length r.buffer + supply r.events)) [] r (omega arith)
