-- ===== src/Http/Parser/Meaning.antt =====
-- What is known of a request that `readRequest` returns.
use go_network_lab.Base.{
  ℕ, suc, ◌+◌, ◌≤◌, ◌≡◌, ◌≢◌, sym, ap, ◌∙◌, subst, ◌⊎◌, inl, inr, true, false, List, [], ◌∷◌, ◌++◌,
  append_assoc, some, Bytes, codes, null, bytes_eq, bytes_eq_iff, length, take, drop, length-append,
  length-take, ltb, Bool-cases, Option-cases, arith, ok, err, ◌>>=◌, ◌>>◌, fail_if, >>=-eq-ok,
}
use go_network_lab.Base.Spaces.{trim_space}
use go_network_lab.Http.Reader.{Reader, has_prefix, index_of, headers_too_large}
use go_network_lab.Http.Reader.Meaning.{arriving, bytes_of}
use go_network_lab.Http.Syntax.{
  Request, Headers, values_of, add_value, or_empty, validate_request, validate_request_semantics,
  check_hosts,
}
use go_network_lab.Http.Body.{read_body}
use go_network_lab.Http.Body.Meaning.{Sized, Chunked, read_body-eq-ok}
use go_network_lab.Http.Parser.{
  read_request, read_head, parse_head, parse_headers, parse_header, store_header, trim_blanks,
  parse_request_line, cut_colon, check_lines, split_lines, separator, max_header_bytes,
  max_header_count,
}
use go_network_lab.Http.Syntax.{map_lower}
use go_network_lab.Http.Reader.{invalid_header, host_count, empty_host}
use go_network_lab.Http.Parser.Head.{Finds, read_head-Finds}
use go_network_lab.Http.Parser.Says.{Says, parse_head-Says}
use go_network_lab.Http.Reader.Search.{index_of-eq-some}

-- How many header fields there are.
abbrev pub field_count : Headers → ℕ
field_count [] = 0
field_count ((n, vs) ∷ h) = length vs + field_count h

field_count-add_value :
    (name v : Bytes) (h : Headers) → field_count (add_value name v h) ≡ suc (field_count h)
unfolding add_value
field_count-add_value name v [] = omega arith
field_count-add_value name v ((n, vs) ∷ h) = elim (Bool-cases (bytes_eq n name)) [
  | inl same ↦ rw same (omega (arith, length-append {0} vs (v ∷ [])))
  | inr other ↦ rw other (omega (arith, field_count-add_value name v h))
]

store_header-count :
    (name value : Bytes) (h h' : Headers)
    → store_header name value h ≡ ok h'
    → field_count h' ≡ suc (field_count h)
unfolding store_header
store_header-count name value h h' e =
    let stored : add_value (map_lower name) (trim_blanks value) h ≡ h' = ground arith in
    rw stored at (field_count-add_value (map_lower name) (trim_blanks value) h)

parse_header-count :
    (line : Bytes) (h h' : Headers)
    → parse_header line h ≡ ok h'
    → field_count h' ≡ suc (field_count h)
unfolding parse_header
parse_header-count line h h' e = elim (Option-cases (cut_colon line)) [
  | inl cut ↦ let bad : err invalid_header ≡ ok h' = rw (cut, parse_header) at e in cc
  | inr ((name, value), cut) ↦ store_header-count name value h h' (rw (cut, parse_header) at e)
]

parse_headers-count :
    (lines : List Bytes) (h h' : Headers)
    → parse_headers lines h ≡ ok h'
    → field_count h' ≡ field_count h + length lines
unfolding parse_headers
parse_headers-count [] h h' e = let same : h ≡ h' = cc in rw same (omega arith)
parse_headers-count (l ∷ ls) h h' e =
    let (h1, first, later) = >>=-eq-ok (parse_header l h) (λ x. parse_headers ls x) e in
    omega (arith, parse_header-count l h h1 first, parse_headers-count ls h1 h' later)

-- The request line of an accepted request, past its method.
abbrev pub Formed : Request → Type 0
Formed r =
    (r.method ≢ [])
    × ((rest : Bytes) × (r.target ≡ b'/' ∷ rest))
    × (r.http_version ≡ codes "HTTP/1.1")

null-false : (s : Bytes) → null s ≡ false → s ≢ []
null-false [] h = cc
null-false (x ∷ s) h = λ e. cc

slash : (s : Bytes) → has_prefix (codes "/") s ≡ true → (rest : Bytes) × (s ≡ b'/' ∷ rest)
unfolding has_prefix
slash [] h = cc
slash (c ∷ s) h = let e : c ≡ b'/' = ground arith in (s, ap (λ z. z ∷ s) e)

validate_request-Formed : (r : Request) → validate_request r ≡ ok tt → Formed r
unfolding validate_request
validate_request-Formed r h =
    let named : null r.method ≡ false = ground arith in
    let slashed : has_prefix (codes "/") r.target ≡ true = ground arith in
    let version : bytes_eq r.http_version (codes "HTTP/1.1") ≡ true = ground arith in
    (
      null-false r.method named,
      slash r.target slashed,
      (bytes_eq_iff r.http_version (codes "HTTP/1.1")).0 version,
    )

parse_head-rest :
    (q : Request) (lines : List Bytes) (q' : Request)
    → length lines ≤ max_header_count
    → (validate_request q
        >> (parse_headers lines [] >>= λ headers. ok (record q { headers = headers })))
      ≡ ok q'
    → Formed q' × (field_count q'.headers ≤ max_header_count)
parse_head-rest q lines q' few h =
    let (_, valid, h1) = >>=-eq-ok (validate_request q) _ h in
    let (headers, parsed, h2) =
      >>=-eq-ok (parse_headers lines []) (λ x. ok (record q { headers = x })) h1 in
    let count = parse_headers-count lines [] headers parsed in
    let small : field_count headers ≤ max_header_count = omega arith in
    let known : Formed (record q { headers = headers }) × (field_count headers ≤ max_header_count) =
      (validate_request-Formed q valid, small) in
    let same : record q { headers = headers } ≡ q' = cc in
    subst (λ x. Formed x × (field_count x.headers ≤ max_header_count)) same known

parse_head-Formed :
    (lines : List Bytes) (q : Request)
    → parse_head lines ≡ ok q
    → Formed q × (field_count q.headers ≤ max_header_count)
unfolding parse_head
parse_head-Formed [] q h = cc
parse_head-Formed (first ∷ lines) q h =
    let few : ltb max_header_count (length lines) ≡ false = ground arith in
    let h1 = rw (few, parse_head) at h in
    let (_, short, h2) = >>=-eq-ok (check_lines (first ∷ lines)) _ h1 in
    let (p, line, h3) = >>=-eq-ok (parse_request_line first) _ h2 in
    parse_head-rest p lines q (ground arith) h3

-- One host, which is not blank.
abbrev pub HasHost : Headers → Type 0
HasHost headers =
    (host : Bytes) × (values_of (codes "host") headers ≡ some (host ∷ [])) × (trim_space host ≢ [])

check_hosts-HasHost :
    (headers : Headers)
    → check_hosts (or_empty (values_of (codes "host") headers)) ≡ ok tt
    → HasHost headers
unfolding check_hosts
check_hosts-HasHost headers h = elim (Option-cases (values_of (codes "host") headers)) [
  | inl missing ↦ let bad : err (host_count 0) ≡ ok tt = rw (missing, check_hosts) at h in cc
  | inr ([], found) ↦ let bad : err (host_count 0) ≡ ok tt = rw (found, check_hosts) at h in cc
  | inr (host ∷ [], found) ↦
      let one : fail_if (null (trim_space host)) empty_host ≡ ok tt =
        rw (found, check_hosts) at h in
      (host, found, null-false (trim_space host) (ground arith))
  | inr (host ∷ other ∷ more, found) ↦
      let bad : err (host_count (length (host ∷ other ∷ more))) ≡ ok tt =
        rw (found, check_hosts) at h in
      cc
]

-- A request that keeps the limits and the rules of the subset: the bytes that arrive are a head that
-- says it, within the limit, the separator, its body as its headers frame it, and what is left.
abbrev pub Accepted : Reader → Request → Reader → Type 0
Accepted r q r' =
    Formed q
    × (field_count q.headers ≤ max_header_count)
    × HasHost q.headers
    × ((head : Bytes) × (r1 : Reader) × (head ++ (separator ++ arriving r1) ≡ arriving r)
        × Says head q
        × (length head + 4 ≤ max_header_bytes)
        × (Sized r1 q.headers q.body r' ⊎ Chunked r1 q.headers q.body r'))

module _ (max_alloc : ℕ) where
  head-arriving :
      (r : Reader) (end : ℕ)
      → index_of separator r.buffer ≡ some end
      → take end r.buffer
          ++ (separator ++ arriving (record r { buffer = drop (end + length separator) r.buffer }))
        ≡ arriving r
  head-arriving r end found =
      let events = bytes_of r.events in
      let behind = drop (end + length separator) r.buffer in
      sym (
        ap (λ x. x ++ events) (index_of-eq-some separator r.buffer end found)
        ∙ append_assoc (take end r.buffer) (separator ++ behind) events)

  -- A request that `readRequest` returns has a method, a target that begins with a slash, version
  -- HTTP/1.1, at most 100 header fields and exactly one host, not blank; the bytes that arrive are a
  -- head, within 8192 bytes with the separator, the separator, its body as its headers frame it, and
  -- what is left. The head is the request line, of its method, target and version, and the lines of
  -- the fields that make its headers.
  pub read_request-Accepted :
      (r : Reader) (q : Request) (r' : Reader)
      → read_request max_alloc r ≡ ok (q, r')
      → Accepted r q r'
  unfolding read_request validate_request_semantics
  read_request-Accepted r q r' h =
      let ((end, r1), headed, h1) = >>=-eq-ok (read_head r) _ h in
      let (found, arrived, _) : Finds r (ok (end, r1)) = rw headed at (read_head-Finds r) in
      let (_, within, h2) =
        >>=-eq-ok (fail_if (ltb max_header_bytes (end + length separator)) headers_too_large) _
          h1 in
      let (p, parsed, h3) = >>=-eq-ok (parse_head (split_lines (take end r1.buffer))) _ h2 in
      let (_, hosts, h4) = >>=-eq-ok (validate_request_semantics p) _ h3 in
      let r2 : Reader = record r1 { buffer = drop (end + length separator) r1.buffer } in
      let ((body, r3), read, h5) = >>=-eq-ok (read_body max_alloc r2 p.headers) _ h4 in
      let (formed, few) = parse_head-Formed (split_lines (take end r1.buffer)) p parsed in
      let limit : end + 4 ≤ max_header_bytes = ground arith in
      let size = length-take end r1.buffer in
      let short : length (take end r1.buffer) + 4 ≤ max_header_bytes = omega arith in
      let framed = read_body-eq-ok max_alloc r2 p.headers body r3 read in
      let known : Accepted r (record p { body = body }) r3 = (
        formed,
        few,
        check_hosts-HasHost p.headers hosts,
        (
          take end r1.buffer,
          r2,
          head-arriving r1 end found ∙ arrived,
          parse_head-Says (take end r1.buffer) p parsed,
          short,
          framed,
        ),
      ) in
      let made : Request × Reader = (record p { body = body }, r3) in
      let returned : Request × Reader = (q, r') in
      let same : made ≡ returned = cc in subst (λ z. Accepted r z.0 z.1) same known
