-- ===== src/Http/Syntax.antt =====
-- internal/rawhttp: `Request` and the tests on it (parser.go, request.go), and `route` (server.go).
use go_network_lab.Base.{
  ℕ, ◌+◌, Bool, true, false, not, ◌&&◌, ◌||◌, List, [], ◌∷◌, ◌++◌, Option, none, some, Bytes, codes,
  null, bytes_eq, length, ltb, leb, ◌==◌, if◌then◌else◌, Outcome, ok, err, ◌>>◌, fail_if,
}
use go_network_lab.Base.Strings.{split}
use go_network_lab.Base.Spaces.{trim_space}
use go_network_lab.Http.Reader.{
  HttpError, has_prefix, invalid_method, invalid_target, unsupported_version, host_count,
  empty_host,
}

-- `map[string][]string`
abbrev pub Headers : Type 0
Headers = List (Bytes × List Bytes)

-- `headers[name]`, with whether it exists
unfoldable pub values_of : Bytes → Headers → Option (List Bytes)
values_of name [] = none
values_of name ((n, vs) ∷ h) = if bytes_eq n name then some vs else values_of name h

-- `headers[name] = append(headers[name], value)`
unfoldable pub add_value : Bytes → Bytes → Headers → Headers
add_value name v [] = (name, v ∷ []) ∷ []
add_value name v ((n, vs) ∷ h) =
    if bytes_eq n name then (n, vs ++ (v ∷ [])) ∷ h else (n, vs) ∷ add_value name v h

-- A key that is missing gives the empty list.
abbrev pub or_empty : Option (List Bytes) → List Bytes
or_empty none = []
or_empty (some vs) = vs

pub record Request : Type 0 where
  pub method : Bytes
  pub target : Bytes
  pub http_version : Bytes
  pub headers : Headers
  pub body : Bytes

-- Whether a byte stands in a text of ASCII.
abbrev pub contains : Bytes → ℕ → Bool
contains [] c = false
contains (x ∷ xs) c = x == c || contains xs c

abbrev pub every : (ℕ → Bool) → Bytes → Bool
every test [] = true
every test (c ∷ s) = test c && every test s

-- `A` to `Z`, `a` to `z`, `0` to `9`, and the punctuation of a token.
unfoldable pub is_token_byte : ℕ → Bool
is_token_byte b =
    leb b'A' b && leb b b'Z'
    || leb b'a' b && leb b b'z'
    || leb b'0' b && leb b b'9'
    || contains (codes "!#$%&'*+-.^_`|~") b

unfoldable pub is_valid_header_name : Bytes → Bool
is_valid_header_name name = not (null name) && every is_token_byte name

unfoldable pub is_value_byte : ℕ → Bool
is_value_byte b = b == 9 || not (ltb b 0x20 || b == 0x7F)

unfoldable pub is_valid_header_value : Bytes → Bool
is_valid_header_value value = every is_value_byte value

-- The bytes that a method may not contain. A byte from 128 on is part of a character beyond 126.
abbrev pub separators : Bytes
separators = codes "()<>@,;:\\\"/[]?={} \t\r\n"

abbrev pub is_method_byte : ℕ → Bool
is_method_byte b = not (contains separators b) && leb 33 b && leb b 126

unfoldable pub validate_request : Request → Outcome HttpError (Unit {0})
validate_request r = do
  fail_if (null r.method || not (every is_method_byte r.method)) invalid_method
  fail_if
      (not (has_prefix (codes "/") r.target)
        || not (every (λ b. not (contains (codes "\t\r\n") b)) r.target))
      invalid_target
  fail_if (not (bytes_eq r.http_version (codes "HTTP/1.1"))) unsupported_version
  ok tt

-- The test on the one `Host` header.
unfoldable pub check_hosts : List Bytes → Outcome HttpError (Unit {0})
check_hosts (host ∷ []) = fail_if (null (trim_space host)) empty_host
check_hosts hosts = err (host_count (length hosts))

unfoldable pub validate_request_semantics : Request → Outcome HttpError (Unit {0})
validate_request_semantics r = check_hosts (or_empty (values_of (codes "host") r.headers))

-- `strings.ToLower` of one byte of ASCII.
abbrev pub lower : ℕ → ℕ
lower c = if leb b'A' c && leb c b'Z' then c + 32 else c

abbrev pub map_lower : Bytes → Bytes
map_lower [] = []
map_lower (c ∷ s) = lower c ∷ map_lower s

-- One byte in front of a text in lower case.
abbrev cons_lower : ℕ → Bytes → Bytes
cons_lower a (b ∷ c ∷ s) =
    if a == 0xC4 && b == 0xB0
    then b'i' ∷ c ∷ s
    else if a == 0xE2 && b == 0x84 && c == 0xAA
    then b'k' ∷ s
    else lower a ∷ b ∷ c ∷ s
cons_lower a (b ∷ []) = if a == 0xC4 && b == 0xB0 then b'i' ∷ [] else lower a ∷ b ∷ []
cons_lower a [] = lower a ∷ []

-- `strings.ToLower`, as far as the result can be ASCII: U+0130 turns into `i` and U+212A into `k`.
unfoldable pub to_lower : Bytes → Bytes
to_lower [] = []
to_lower (a ∷ s) = cons_lower a (to_lower s)

-- The loop over the tokens of one value: to close at once, or the flag behind it.
unfoldable pub scan_tokens : List Bytes → Bool → Bool × Bool
scan_tokens [] keep_alive = (false, keep_alive)
scan_tokens (t ∷ ts) keep_alive =
    let token = to_lower (trim_space t) in
    let rest = scan_tokens ts (keep_alive || bytes_eq token (codes "keep-alive")) in
    if bytes_eq token (codes "close") then (true, keep_alive) else rest

unfoldable pub scan_values : List Bytes → Bool → Bool × Bool
scan_values [] keep_alive = (false, keep_alive)
scan_values (v ∷ vs) keep_alive =
    let (closes, keep_alive') = scan_tokens (split b',' v) keep_alive in
    let rest = scan_values vs keep_alive' in if closes then (true, keep_alive') else rest

unfoldable pub should_close : Request → Bool
should_close r =
    let (closes, keep_alive) =
      scan_values (or_empty (values_of (codes "connection") r.headers)) false in
    closes || not (bytes_eq r.http_version (codes "HTTP/1.1")) && not keep_alive

-- The status and the body of the response.
unfoldable pub route : Request → Bytes × Bytes
route r =
    let not_allowed : Bytes × Bytes =
      (codes "405 Method Not Allowed", codes "Method Not Allowed") in
    if bytes_eq r.target (codes "/")
    then (if bytes_eq r.method (codes "GET")
        then (codes "200 OK", codes "Hello World!")
        else not_allowed)
    else if bytes_eq r.target (codes "/echo")
    then (if bytes_eq r.method (codes "POST") then (codes "200 OK", r.body) else not_allowed)
    else (codes "404 Not Found", codes "Not Found")
