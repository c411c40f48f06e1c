-- ===== src/Http/Parser/Checks.antt =====
-- The checks of parser.go, which read nothing.
use go_network_lab.Base.{
  ◌≡◌, refl, inl, inr, not, ◌||◌, List, [], ◌∷◌, Bytes, codes, bytes_eq, null, length, ltb,
  Bool-cases, Option-cases, Outcome, ok, ◌>>=◌, ◌>>◌,
}
use go_network_lab.Base.Strings.{split}
use go_network_lab.Base.Spaces.{trim_space}
use go_network_lab.Http.Reader.{
  HttpError, invalid_method, invalid_target, unsupported_version, too_many_headers, has_prefix,
}
use go_network_lab.Http.Syntax.{
  Request, Headers, validate_request, check_hosts, every, is_method_byte, contains,
  is_valid_header_name, is_valid_header_value,
}
use go_network_lab.Http.Reader.Behaves.{Settles, Settles-bind, Settles-fail_if}
use go_network_lab.Http.Parser.{
  parse_head, check_lines, max_header_line, max_header_count, parse_headers, parse_header,
  store_header, parse_request_line, cut_colon,
}

-- The syntax of the head is checked without reading.
check_lines-Settles : (lines : List Bytes) → Settles (check_lines lines)
unfolding check_lines
check_lines-Settles [] = tt
check_lines-Settles (l ∷ ls) = elim (Bool-cases (ltb max_header_line (length l))) [
  | inl long ↦ rw (long, check_lines) tt
  | inr short ↦ rw (short, check_lines) (check_lines-Settles ls)
]

store_header-Settles :
    (name value : Bytes) (headers : Headers) → Settles (store_header name value headers)
unfolding store_header
store_header-Settles name value headers = elim (Bool-cases (is_valid_header_name name)) [
  | inr bad ↦ rw (bad, store_header) tt
  | inl good ↦ elim (Bool-cases (is_valid_header_value value)) [
    | inr bad ↦ rw (good, bad, store_header) tt
    | inl fine ↦ rw (good, fine, store_header) tt
  ]
]

parse_header-Settles : (line : Bytes) (headers : Headers) → Settles (parse_header line headers)
unfolding parse_header
parse_header-Settles line headers = elim (Option-cases (cut_colon line)) [
  | inl missing ↦ rw (missing, parse_header) tt
  | inr ((name, value), cut) ↦ rw (cut, parse_header) (store_header-Settles name value headers)
]

parse_headers-Settles :
    (lines : List Bytes) (headers : Headers) → Settles (parse_headers lines headers)
unfolding parse_headers
parse_headers-Settles [] headers = tt
parse_headers-Settles (l ∷ ls) headers =
    Settles-bind (parse_header l headers) (parse_headers ls) (parse_header-Settles l headers)
      λ h. parse_headers-Settles ls h

parse_request_line-Settles : (line : Bytes) → Settles (parse_request_line line)
unfolding parse_request_line
parse_request_line-Settles line = go (split 32 line) refl
  where
    go : (parts : List Bytes) → split 32 line ≡ parts → Settles (parse_request_line line)
    go [] e = rw (e, parse_request_line) tt
    go (a ∷ []) e = rw (e, parse_request_line) tt
    go (a ∷ b ∷ []) e = rw (e, parse_request_line) tt
    go (a ∷ b ∷ c ∷ []) e = rw (e, parse_request_line) tt
    go (a ∷ b ∷ c ∷ d ∷ more) e = rw (e, parse_request_line) tt

validate_request-Settles : (q : Request) → Settles (validate_request q)
unfolding validate_request
validate_request-Settles q =
    Settles-fail_if (null q.method || not (every is_method_byte q.method)) invalid_method _ (
      Settles-fail_if
        (not (has_prefix (codes "/") q.target)
          || not (every (λ b. not (contains (codes "\t\r\n") b)) q.target))
        invalid_target _
        (Settles-fail_if (not (bytes_eq q.http_version (codes "HTTP/1.1"))) unsupported_version
          (ok tt) tt))

pub parse_head-Settles : (lines : List Bytes) → Settles (parse_head lines)
unfolding parse_head
parse_head-Settles [] = tt
parse_head-Settles (first ∷ lines) =
    let with_headers : Request → Headers → Outcome HttpError Request =
      λ q h. ok (record q { headers = h }) in
    let with_line : Request → Outcome HttpError Request =
      λ q. validate_request q >> (parse_headers lines [] >>= with_headers q) in
    Settles-fail_if (ltb max_header_count (length lines)) too_many_headers
      (check_lines (first ∷ lines) >> (parse_request_line first >>= with_line))
      (Settles-bind (check_lines (first ∷ lines)) (λ _. parse_request_line first >>= with_line)
        (check_lines-Settles (first ∷ lines))
        λ _.
          Settles-bind (parse_request_line first) with_line (parse_request_line-Settles first) λ q.
            Settles-bind (validate_request q) (λ _. parse_headers lines [] >>= with_headers q)
              (validate_request-Settles q)
              λ _.
                Settles-bind (parse_headers lines []) (with_headers q)
                  (parse_headers-Settles lines []) λ h. tt)

pub check_hosts-Settles : (hosts : List Bytes) → Settles (check_hosts hosts)
unfolding check_hosts
check_hosts-Settles [] = tt
check_hosts-Settles (h ∷ []) = elim (Bool-cases (null (trim_space h))) [
  | inl empty ↦ rw (empty, check_hosts) tt
  | inr filled ↦ rw (filled, check_hosts) tt
]
check_hosts-Settles (h ∷ i ∷ more) = tt
