-- ===== src/Http/Reader.antt =====
-- `requestReader` of internal/rawhttp/framing.go with `readBytes` and `readChunkLine`, and the
-- searches of package bytes.
pub mod Meaning
pub mod Search
pub mod Progress
pub mod Lines
pub mod Behaves
use go_network_lab.Base.{
  ℕ, zero, suc, ◌+◌, ◌-◌, ◌≡◌, refl, min, Bool, true, false, ◌&&◌, List, [], ◌∷◌, ◌++◌, Option,
  none, some, Bytes, length, take, drop, ltb, leb, ◌==◌, if◌then◌else◌, Outcome, ok, err, panic,
  stuck, ◌>>=◌,
}
use go_network_lab.Base.Io.{IoError, eof, unexpected_eof, end_error}

-- What a `Read` can find: bytes that have arrived, and an error that comes with the last of them.
pub record ReadEvent : Type 0 where
  pub arrived : Bytes
  pub failure : Option IoError

-- `Read` into a slice of length `n`: what it returns, and what is left; nothing where it blocks.
unfoldable pub read_some : ℕ → List ReadEvent → Option (Bytes × Option IoError × List ReadEvent)
read_some n [] = none
read_some n (e ∷ es) =
    if leb (length e.arrived) n
    then some (e.arrived, e.failure, es)
    else some (take n e.arrived, none, record e { arrived = drop n e.arrived } ∷ es)

-- `read_err` is the error of the last call of `Read`.
pub record Reader : Type 0 where
  pub buffer : Bytes
  pub events : List ReadEvent
  pub read_err : Option IoError

pub data HttpError : Type 0 where
  io body_read chunk_size_read : IoError → HttpError
  headers_too_large too_many_headers header_line_too_long : HttpError
  invalid_request_line invalid_method invalid_target unsupported_version : HttpError
  invalid_header invalid_header_value empty_host : HttpError
  host_count : ℕ → HttpError
  unsupported_encoding both_framings : HttpError
  invalid_content_length conflicting_content_length : HttpError
  invalid_chunk_size chunk_too_large no_crlf_after_chunk : HttpError

-- `errors.Is(err, io.EOF)`
abbrev pub is_eof : HttpError → Bool
is_eof (io eof) = true
is_eof (body_read eof) = true
is_eof (chunk_size_read eof) = true
is_eof _ = false

-- `n, err := r.reader.Read(temp[:n]); r.buffer = append(r.buffer, temp[:n]...); r.readErr = err`
unfoldable pub fill : ℕ → Reader → Option Reader
fill n r = elim (read_some n r.events) [
  | none ↦ none
  | some (bytes, failure, events) ↦
      some (record { buffer = r.buffer ++ bytes; events = events; read_err = failure })
]

-- An upper bound of the calls of `Read` that find something.
abbrev pub supply : List ReadEvent → ℕ
supply [] = 0
supply (e ∷ es) = suc (length e.arrived + supply es)

-- `bytes.HasPrefix`
unfoldable pub has_prefix : Bytes → Bytes → Bool
has_prefix [] s = true
has_prefix (x ∷ xs) [] = false
has_prefix (x ∷ xs) (c ∷ s) = x == c && has_prefix xs s

-- `bytes.Index`
unfoldable pub index_of : Bytes → Bytes → Option ℕ
index_of sep [] = if has_prefix sep [] then some 0 else none
index_of sep (c ∷ s) =
    let later = index_of sep s in
    if has_prefix sep (c ∷ s) then some 0 else elim later [ some i ↦ some (suc i) | none ↦ none ]

abbrev pub crlf : Bytes
crlf = 13 ∷ 10 ∷ []

-- `if errors.Is(err, io.EOF) { err = io.ErrUnexpectedEOF }`
abbrev pub cut_short : IoError → IoError
cut_short eof = unexpected_eof
cut_short e = e

-- The loop of `io.ReadFull`; an error that comes with the last byte wanted is dropped.
unfoldable pub read_full : ℕ → ℕ → Bytes → List ReadEvent → Outcome IoError (Bytes × List ReadEvent)
read_full fuel zero got events = ok (got, events)
read_full zero (suc need) got events = stuck
read_full (suc fuel) (suc need) got events = elim (read_some (suc need) events) [
  | none ↦ stuck
  | some (bytes, failure, rest) ↦
      let more = read_full fuel (suc need - length bytes) (got ++ bytes) rest in
      if leb (suc need) (length bytes)
      then ok (got ++ bytes, rest)
      else elim failure [ none ↦ more | some e ↦ err (end_error (got ++ bytes) e) ]
]

-- The end of `readBytes`, after `io.ReadFull`.
unfoldable pub finish_read :
    Bytes → Reader → Outcome IoError (Bytes × List ReadEvent) → Outcome HttpError (Bytes × Reader)
finish_read copied r (ok (bytes, events)) = ok (copied ++ bytes, record r { events = events })
finish_read copied r (err e) = err (body_read (cut_short e))
finish_read copied r panic = panic
finish_read copied r stuck = stuck

-- `if r.readErr != nil { … }`
abbrev pub unless_failed :
    Option IoError → Outcome HttpError (Bytes × Reader) → Outcome HttpError (Bytes × Reader)
unless_failed (some e) next = err (io (cut_short e))
unless_failed none next = next

-- `make` panics for more than `max_alloc` bytes.
module _ (max_alloc : ℕ) where
  unfoldable pub read_bytes : Reader → ℕ → Outcome HttpError (Bytes × Reader)
  read_bytes r size =
      let copied = take size r.buffer in
      let r' = record r { buffer = drop size r.buffer } in
      let missing = size - length copied in
      let fresh = finish_read copied r' (read_full (suc (supply r.events)) missing [] r.events) in
      if ltb max_alloc size
      then panic
      else if leb size (length copied)
      then ok (copied, r')
      else unless_failed r.read_err fresh

-- The loop of `readChunkLine`.
unfoldable pub line_loop : ℕ → Reader → Outcome IoError (Bytes × Reader)
line_loop zero r = stuck
line_loop (suc fuel) r = elim (index_of crlf r.buffer) [
  | some end ↦ ok (take end r.buffer, record r { buffer = drop (end + 2) r.buffer })
  | none ↦ elim r.read_err [
    | some e ↦ err (cut_short e)
    | none ↦ elim (fill 1024 r) [ none ↦ stuck | some r' ↦ line_loop fuel r' ]
  ]
]

unfoldable pub read_chunk_line : Reader → Outcome IoError (Bytes × Reader)
read_chunk_line r = line_loop (suc (supply r.events)) r
