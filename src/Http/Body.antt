-- ===== src/Http/Body.antt =====
-- `readBody` and `readChunkedBody` of internal/rawhttp/framing.go, with what they use of strconv,
-- where `int` has 64 bits.
pub mod Chunks
pub mod Meaning
pub mod Rounds
use go_network_lab.Base.{
  ℕ, zero, suc, ◌+◌, ◌-◌, ◌*◌, ◌^◌, ◌≡◌, refl, Bool, true, false, not, ◌&&◌, ◌||◌, List, [], ◌∷◌,
  ◌++◌, Option, none, some, Bytes, codes, null, bytes_eq, length, ltb, leb, ◌==◌, if◌then◌else◌,
  Outcome, ok, err, panic, stuck, ◌>>=◌, ◌>>◌, fail_if, wrap_err,
}
use go_network_lab.Base.Strings.{join}
use go_network_lab.Http.Reader.{
  HttpError, io, chunk_size_read, Reader, supply, read_bytes, read_chunk_line, crlf,
  unsupported_encoding, both_framings, invalid_content_length, conflicting_content_length,
  invalid_chunk_size, chunk_too_large, no_crlf_after_chunk,
}
use go_network_lab.Http.Syntax.{Headers, values_of, or_empty, every, to_lower}

-- The value of digits to a base, each by `digit`, behind the value `n` of those before.
unfoldable pub number_from : ℕ → (ℕ → Option ℕ) → ℕ → Bytes → Option ℕ
number_from base digit n [] = some n
number_from base digit n (c ∷ s) = elim (digit c) [
  | none ↦ none
  | some d ↦ number_from base digit (n * base + d) s
]

abbrev pub decimal_digit : ℕ → Option ℕ
decimal_digit c = if leb b'0' c && leb c b'9' then some (c - b'0') else none

abbrev pub hex_digit : ℕ → Option ℕ
hex_digit c =
    if leb b'0' c && leb c b'9'
    then some (c - b'0')
    else if leb b'a' c && leb c b'f'
    then some (c - b'a' + 10)
    else if leb b'A' c && leb c b'F'
    then some (c - b'A' + 10)
    else none

abbrev pub max_int : ℕ
max_int = 9223372036854775807

abbrev at_most : ℕ → Option ℕ → Option ℕ
at_most limit none = none
at_most limit (some n) = if leb n limit then some n else none

abbrev digits_of : Bytes → Option ℕ
digits_of s = if null s then none else number_from 10 decimal_digit 0 s

-- `strconv.Atoi`, with the negative results left out, which are rejected with the errors.
unfoldable pub atoi : Bytes → Option ℕ
atoi [] = none
atoi (c ∷ s) =
    if c == b'+'
    then at_most max_int (digits_of s)
    else if c == b'-'
    then at_most 0 (digits_of s)
    else at_most max_int (digits_of (c ∷ s))

-- The loop over the values; `first` tells that there is none before.
unfoldable pub content_length : Bool → ℕ → List Bytes → Outcome HttpError ℕ
content_length first n [] = ok n
content_length first n (v ∷ vs) = elim (atoi v) [
  | none ↦ err invalid_content_length
  | some m ↦
      let rest = content_length false m vs in
      if not first && not (m == n) then err conflicting_content_length else rest
]

-- `strconv.ParseUint(line, 16, strconv.IntSize-1)` on digits only.
unfoldable pub chunk_size : Bytes → Option ℕ
chunk_size line = at_most max_int (number_from 16 hex_digit 0 line)

abbrev is_hex : ℕ → Bool
is_hex c = elim (hex_digit c) [ none ↦ false | some d ↦ true ]

module _ (max_alloc : ℕ) where
  -- The end of a round of the loop of `readChunkedBody`.
  unfoldable pub read_chunk : Bytes → Reader → ℕ → Outcome HttpError (Bool × Bytes × Reader)
  read_chunk body r size = do
    (chunk, r') ← read_bytes max_alloc r size
    (ending, r'') ← read_bytes max_alloc r' 2
    fail_if (not (bytes_eq ending crlf)) no_crlf_after_chunk
    ok (if size == 0 then (true, body, r'') else (false, body ++ chunk, r''))

  -- One round: whether the body has ended, and what there is of it.
  unfoldable pub chunk_round : Bytes → Reader → Outcome HttpError (Bool × Bytes × Reader)
  chunk_round body r = do
    (line, r') ← wrap_err chunk_size_read (read_chunk_line r)
    fail_if (null line || not (every is_hex line)) invalid_chunk_size
    elim (chunk_size line) [
      | none ↦ err chunk_too_large
      | some size ↦
          let chunk = read_chunk body r' size in
          if ltb (max_int - length body) size then err chunk_too_large else chunk
    ]

  unfoldable pub chunk_loop : ℕ → Bytes → Reader → Outcome HttpError (Bytes × Reader)
  chunk_loop zero body r = stuck
  chunk_loop (suc fuel) body r = do
    (ended, body', r') ← chunk_round body r
    let rest = chunk_loop fuel body' r'
    if ended then ok (body', r') else rest

  -- Each round takes at least three bytes.
  unfoldable pub read_chunked_body : Reader → Outcome HttpError (Bytes × Reader)
  read_chunked_body r = chunk_loop (suc (length r.buffer + supply r.events)) [] r

  unfoldable pub read_body : Reader → Headers → Outcome HttpError (Bytes × Reader)
  read_body r headers =
      let plain : Outcome HttpError (Bytes × Reader) = do
        n ← content_length true 0 (or_empty (values_of (codes "content-length") headers))
        read_bytes max_alloc r n
      in elim (values_of (codes "transfer-encoding") headers) [
        | none ↦ plain
        | some encodings ↦
            let chunked = read_chunked_body r in
            if not (bytes_eq (to_lower (join b',' encodings)) (codes "chunked"))
            then err unsupported_encoding
            else elim (values_of (codes "content-length") headers) [
              | some lengths ↦ err both_framings
              | none ↦ chunked
            ]
      ]
