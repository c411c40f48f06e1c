-- ===== src/Http/Parser/Says.antt =====
-- What the head of a request says: the lines that parser.go cuts it into, and their parts.
use go_network_lab.Base.{
  ℕ, ◌≡◌, refl, sym, ap, ◌∙◌, subst, inl, inr, true, false, ◌&&◌, List, [], ◌∷◌, ◌++◌, none, some,
  Bytes, length, ltb, ◌==◌, ==_iff, Bool-cases, Option-cases, arith, ok, err, >>=-eq-ok,
}
use go_network_lab.Base.Strings.{split, join, join-split}
use go_network_lab.Http.Reader.{crlf, invalid_header, invalid_request_line}
use go_network_lab.Http.Syntax.{
  Request, Headers, every, is_method_byte, add_value, map_lower, validate_request,
  is_valid_header_name, is_valid_header_value,
}
use go_network_lab.Http.Parser.{
  parse_head, parse_headers, parse_header, store_header, trim_blanks, parse_request_line, cut_colon,
  check_lines, split_lines, max_header_count,
}

-- The lines of a text, at least one, with CRLF between them.
abbrev pub lines_text : Bytes → List Bytes → Bytes
lines_text first [] = first
lines_text first (l ∷ ls) = first ++ (crlf ++ lines_text l ls)

-- The lines of the header fields, and the headers that they make of those before.
pub data Fields : List Bytes → Headers → Headers → Type 0 where
  no_field : (h : Headers) → Fields [] h h
  field :
      (name value : Bytes) (ls : List Bytes) (h h' : Headers)
      → is_valid_header_name name ≡ true
      → is_valid_header_value value ≡ true
      → Fields ls (add_value (map_lower name) (trim_blanks value) h) h'
      → Fields ((name ++ b':' ∷ value) ∷ ls) h h'

-- The head is the request line, of these three parts, and the lines of the fields.
abbrev pub Says : Bytes → Request → Type 0
Says head q =
    (ls : List Bytes) × (lines_text (q.method ++ 32 ∷ (q.target ++ 32 ∷ q.http_version)) ls ≡ head)
    × (every is_method_byte q.method ≡ true)
    × Fields ls [] q.headers

lines_text_cons :
    (c : ℕ) (p : Bytes) (ps : List Bytes) → lines_text (c ∷ p) ps ≡ c ∷ lines_text p ps
lines_text_cons c p [] = refl
lines_text_cons c p (l ∷ ls) = refl

-- The lines that are cut make up the text.
pub lines_text-split_lines :
    (s : Bytes)
    → (first : Bytes) × (ls : List Bytes) × (split_lines s ≡ first ∷ ls) × (lines_text first ls ≡ s)
unfolding split_lines
lines_text-split_lines [] = ([], [], refl, refl)
lines_text-split_lines (c ∷ s) =
    let (p, ps, cut, whole) = lines_text-split_lines s in go p ps cut whole
  where
    go :
        (p : Bytes) (ps : List Bytes)
        → split_lines s ≡ p ∷ ps
        → lines_text p ps ≡ s
        → (first : Bytes) × (ls : List Bytes) × (split_lines (c ∷ s) ≡ first ∷ ls)
          × (lines_text first ls ≡ c ∷ s)
    go [] ps cut whole =
        (c ∷ [], ps, rw (cut, split_lines) refl, lines_text_cons c [] ps ∙ ap (◌∷◌ c) whole)
    go (d ∷ p) ps cut whole = elim (Bool-cases (c == 13 && d == 10)) [
      | inl ends ↦
          let at_c : c ≡ 13 = ground arith in
          let at_d : d ≡ 10 = ground arith in
          (
            [],
            p ∷ ps,
            rw (cut, ends, split_lines) refl,
            rw (at_c, sym at_d) (ap (◌∷◌ 13) (sym (lines_text_cons d p ps) ∙ whole)),
          )
      | inr goes ↦ (
        c ∷ d ∷ p,
        ps,
        rw (cut, goes, split_lines) refl,
        lines_text_cons c (d ∷ p) ps ∙ ap (◌∷◌ c) whole,
      )
    ]

parse_request_line-parts :
    (line : Bytes) (q : Request)
    → parse_request_line line ≡ ok q
    → q.method ++ 32 ∷ (q.target ++ 32 ∷ q.http_version) ≡ line
unfolding parse_request_line join
parse_request_line-parts line q h = go (split 32 line) refl
  where
    go :
        (parts : List Bytes)
        → split 32 line ≡ parts
        → q.method ++ 32 ∷ (q.target ++ 32 ∷ q.http_version) ≡ line
    go [] e = let bad : err invalid_request_line ≡ ok q = rw (e, parse_request_line) at h in cc
    go (a ∷ []) e =
        let bad : err invalid_request_line ≡ ok q = rw (e, parse_request_line) at h in cc
    go (a ∷ b ∷ []) e =
        let bad : err invalid_request_line ≡ ok q = rw (e, parse_request_line) at h in cc
    go (a ∷ b ∷ c ∷ d ∷ more) e =
        let bad : err invalid_request_line ≡ ok q = rw (e, parse_request_line) at h in cc
    go (a ∷ b ∷ c ∷ []) e =
        let p : Request = record {
          method = a;
          target = b;
          http_version = c;
          headers = [];
          body = [];
        } in
        let made : ok p ≡ ok q = rw (e, parse_request_line) at h in
        let same : p ≡ q = cc in
        let back : a ++ 32 ∷ (b ++ 32 ∷ c) ≡ line = rw e at (join-split 32 line) in
        subst (λ x. x.method ++ 32 ∷ (x.target ++ 32 ∷ x.http_version) ≡ line) same back

cut_colon-eq-some :
    (line name value : Bytes) → cut_colon line ≡ some (name, value) → name ++ b':' ∷ value ≡ line
unfolding cut_colon
cut_colon-eq-some [] name value h = cc
cut_colon-eq-some (c ∷ s) name value h = elim (Bool-cases (c == b':')) [
  | inl here ↦
      let at : c ≡ b':' = (==_iff c b':').0 here in
      let e : some ([], s) ≡ some (name, value) = rw (here, cut_colon) at h in
      let cut : Bytes × Bytes = ([], s) in
      let wanted : Bytes × Bytes = (name, value) in
      let pair : cut ≡ wanted = cc in
      subst (λ x. x.0 ++ b':' ∷ x.1 ≡ c ∷ s) pair (ap (λ x. x ∷ s) (sym at))
  | inr there ↦ elim (Option-cases (cut_colon s)) [
    | inl missing ↦ let bad : none ≡ some (name, value) = rw (there, missing, cut_colon) at h in cc
    | inr ((a, b), found) ↦
        let e : some (c ∷ a, b) ≡ some (name, value) = rw (there, found, cut_colon) at h in
        let cut : Bytes × Bytes = (c ∷ a, b) in
        let wanted : Bytes × Bytes = (name, value) in
        let pair : cut ≡ wanted = cc in
        subst (λ x. x.0 ++ b':' ∷ x.1 ≡ c ∷ s) pair (ap (◌∷◌ c) (cut_colon-eq-some s a b found))
  ]
]

parse_headers-Fields :
    (ls : List Bytes) (h h' : Headers) → parse_headers ls h ≡ ok h' → Fields ls h h'
unfolding parse_headers parse_header store_header
parse_headers-Fields [] h h' e =
    let same : h ≡ h' = cc in subst (λ x. Fields [] h x) same (no_field h)
parse_headers-Fields (l ∷ ls) h h' e =
    let (h1, first, later) = >>=-eq-ok (parse_header l h) (λ x. parse_headers ls x) e in
    let rest = parse_headers-Fields ls h1 h' later in
    elim (Option-cases (cut_colon l)) [
      | inl missing ↦
          let bad : err invalid_header ≡ ok h1 = rw (missing, parse_header) at first in cc
      | inr ((name, value), cut) ↦
          let stored : store_header name value h ≡ ok h1 = rw (cut, parse_header) at first in
          let named : is_valid_header_name name ≡ true = ground arith in
          let valued : is_valid_header_value value ≡ true = ground arith in
          let added : add_value (map_lower name) (trim_blanks value) h ≡ h1 = ground arith in
          subst (λ x. Fields (x ∷ ls) h h') (cut_colon-eq-some l name value cut)
            (field name value ls h h' named valued (rw added rest))
    ]

-- The head of which `parseRequest` makes a request.
pub parse_head-Says :
    (head : Bytes) (q : Request) → parse_head (split_lines head) ≡ ok q → Says head q
unfolding parse_head validate_request
parse_head-Says head q h =
    let (first, ls, cut, whole) = lines_text-split_lines head in
    let h0 : parse_head (first ∷ ls) ≡ ok q = rw cut at h in
    let few : ltb max_header_count (length ls) ≡ false = ground arith in
    let h1 = rw (few, parse_head) at h0 in
    let (_, short, h2) = >>=-eq-ok (check_lines (first ∷ ls)) _ h1 in
    let (p, line, h3) = >>=-eq-ok (parse_request_line first) _ h2 in
    let (_, valid, h4) = >>=-eq-ok (validate_request p) _ h3 in
    let (headers, parsed, h5) =
      >>=-eq-ok (parse_headers ls []) (λ x. ok (record p { headers = x })) h4 in
    let letters : every is_method_byte p.method ≡ true = ground arith in
    let said : Says head (record p { headers = headers }) = (
      ls,
      ap (λ x. lines_text x ls) (parse_request_line-parts first p line) ∙ whole,
      letters,
      parse_headers-Fields ls [] headers parsed,
    ) in
    let same : record p { headers = headers } ≡ q = cc in subst (Says head) same said
