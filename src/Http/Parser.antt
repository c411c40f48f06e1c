-- ===== src/Http/Parser.antt =====
-- `readRequest` of internal/rawhttp/parser.go.
pub mod Checks
pub mod Head
pub mod Progress
pub mod Says
pub mod Meaning
use go_network_lab.Base.{
  ℕ, zero, suc, ◌+◌, ◌-◌, ◌*◌, ◌≡◌, refl, min, Bool, true, false, not, ◌&&◌, ◌||◌, List, [], ◌∷◌,
  ◌++◌, Option, none, some, Bytes, codes, null, bytes_eq, length, take, drop, ltb, leb, ◌==◌,
  if◌then◌else◌, Outcome, ok, err, panic, stuck, ◌>>=◌, ◌>>◌, fail_if, wrap_err,
}
use go_network_lab.Base.Strings.{split, onto_first}
use go_network_lab.Base.Io.{IoError, eof, unexpected_eof}
use go_network_lab.Http.Reader.{
  HttpError, io, headers_too_large, too_many_headers, header_line_too_long, invalid_request_line,
  invalid_header, invalid_header_value, Reader, supply, fill, index_of, crlf,
}
use go_network_lab.Http.Syntax.{
  Request, Headers, add_value, is_valid_header_name, is_valid_header_value, map_lower,
  validate_request, validate_request_semantics,
}
use go_network_lab.Http.Body.{read_body}

abbrev pub max_header_bytes : ℕ
max_header_bytes = 8192

abbrev pub max_header_line : ℕ
max_header_line = 4096

abbrev pub max_header_count : ℕ
max_header_count = 100

abbrev pub separator : Bytes
separator = crlf ++ crlf

-- The error where the head is not complete and `Read` has failed before.
abbrev pub head_error : Bytes → IoError → IoError
head_error buffer eof = if null buffer then eof else unexpected_eof
head_error buffer e = e

-- `if r.readErr != nil { … }`
abbrev pub unless_ended :
    Bytes → Option IoError → Outcome HttpError (ℕ × Reader) → Outcome HttpError (ℕ × Reader)
unless_ended buffer none next = next
unless_ended buffer (some e) next = err (io (head_error buffer e))

-- What is done once more has been read; the call blocks where nothing comes.
abbrev pub once_filled :
    Option Reader → (Reader → Outcome HttpError (ℕ × Reader)) → Outcome HttpError (ℕ × Reader)
once_filled none next = stuck
once_filled (some r) next = next r

-- The loop that reads until the separator: where it stands, and the reader behind.
unfoldable pub head_loop : ℕ → Reader → Outcome HttpError (ℕ × Reader)
head_loop zero r = stuck
head_loop (suc fuel) r = elim (index_of separator r.buffer) [
  | some end ↦ ok (end, r)
  | none ↦
      let remaining = max_header_bytes - length r.buffer in
      let more = once_filled (fill (min 1024 remaining) r) (λ r'. head_loop fuel r') in
      if leb max_header_bytes (length r.buffer)
      then err headers_too_large
      else unless_ended r.buffer r.read_err more
]

unfoldable pub read_head : Reader → Outcome HttpError (ℕ × Reader)
read_head r = head_loop (suc (supply r.events)) r

-- A byte in front of the parts of a text that is cut at CRLF.
abbrev pub cut_crlf : ℕ → List Bytes → List Bytes
cut_crlf c ((d ∷ p) ∷ ps) = if c == 13 && d == 10 then [] ∷ p ∷ ps else (c ∷ d ∷ p) ∷ ps
cut_crlf c ([] ∷ ps) = (c ∷ []) ∷ ps
cut_crlf c [] = (c ∷ []) ∷ []

-- `strings.Split(s, "\r\n")`
unfoldable pub split_lines : Bytes → List Bytes
split_lines [] = [] ∷ []
split_lines (c ∷ s) = cut_crlf c (split_lines s)

-- The loop over the lines that tests their lengths.
unfoldable pub check_lines : List Bytes → Outcome HttpError (Unit {0})
check_lines [] = ok tt
check_lines (l ∷ ls) =
    let rest = check_lines ls in
    if ltb max_header_line (length l) then err header_line_too_long else rest

-- `strings.Cut(line, ":")`
unfoldable pub cut_colon : Bytes → Option (Bytes × Bytes)
cut_colon [] = none
cut_colon (c ∷ s) =
    let later = cut_colon s in
    if c == b':' then some ([], s) else elim later [ none ↦ none | some (a, b) ↦ some (c ∷ a, b) ]

abbrev is_blank : ℕ → Bool
is_blank c = c == 32 || c == 9

unfoldable pub trim_front : Bytes → Bytes
trim_front [] = []
trim_front (c ∷ s) = let rest = trim_front s in if is_blank c then rest else c ∷ s

-- What is left of a byte and the blanks trimmed behind it.
abbrev keep_unless_blank : ℕ → Bytes → Bytes
keep_unless_blank c [] = if is_blank c then [] else c ∷ []
keep_unless_blank c (d ∷ s) = c ∷ d ∷ s

unfoldable pub trim_back : Bytes → Bytes
trim_back [] = []
trim_back (c ∷ s) = keep_unless_blank c (trim_back s)

-- `strings.Trim(value, " \t")`
abbrev pub trim_blanks : Bytes → Bytes
trim_blanks s = trim_back (trim_front s)

-- One round of the loop over the header lines, behind the cut.
unfoldable pub store_header : Bytes → Bytes → Headers → Outcome HttpError Headers
store_header name value headers = do
  fail_if (not (is_valid_header_name name)) invalid_header
  fail_if (not (is_valid_header_value value)) invalid_header_value
  ok (add_value (map_lower name) (trim_blanks value) headers)

unfoldable pub parse_header : Bytes → Headers → Outcome HttpError Headers
parse_header line headers = elim (cut_colon line) [
  | none ↦ err invalid_header
  | some (name, value) ↦ store_header name value headers
]

unfoldable pub parse_headers : List Bytes → Headers → Outcome HttpError Headers
parse_headers [] headers = ok headers
parse_headers (l ∷ ls) headers = parse_header l headers >>= parse_headers ls

-- The parts of the request line, as a request with no headers and no body.
unfoldable pub parse_request_line : Bytes → Outcome HttpError Request
parse_request_line line = elim (split 32 line) [
  | method ∷ target ∷ version ∷ [] ↦
      ok (record {
        method = method;
        target = target;
        http_version = version;
        headers = [];
        body = [];
      })
  | _ ↦ err invalid_request_line
]

-- From the lines to the request, without its body. `strings.Split` gives at least one part.
unfoldable pub parse_head : List Bytes → Outcome HttpError Request
parse_head [] = panic
parse_head (first ∷ lines) = do
  fail_if (ltb max_header_count (length lines)) too_many_headers
  check_lines (first ∷ lines)
  request ← parse_request_line first
  validate_request request
  headers ← parse_headers lines []
  ok (record request { headers = headers })

module _ (max_alloc : ℕ) where
  unfoldable pub read_request : Reader → Outcome HttpError (Request × Reader)
  read_request r = do
    (end, r') ← read_head r
    fail_if (ltb max_header_bytes (end + length separator)) headers_too_large
    request ← parse_head (split_lines (take end r'.buffer))
    let r'' = record r' { buffer = drop (end + length separator) r'.buffer }
    validate_request_semantics request
    (body, rest) ← read_body max_alloc r'' request.headers
    ok (record request { body = body }, rest)
