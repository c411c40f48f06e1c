-- ===== src/Http/Parser/Progress.antt =====
-- What `readRequest` takes off the connection, and when it returns.
use go_network_lab.Base.{
  ℕ, zero, suc, ◌+◌, ◌-◌, ◌≤◌, ◌<◌, ◌≡◌, refl, ap, inl, inr, min, Bool, true, false, not, ◌&&◌,
  List, [], ◌∷◌, ◌++◌, Option, none, some, Bytes, codes, bytes_eq, length, take, drop,
  length-append, ltb, leb, ◌==◌, Bool-cases, Option-cases, arith, Outcome, ok, err, panic, stuck,
  ◌>>=◌, ◌>>◌, fail_if,
}
use go_network_lab.Base.Strings.{join}
use go_network_lab.Http.Reader.{
  HttpError, Reader, read_bytes, fill, supply, index_of, headers_too_large,
}
use go_network_lab.Http.Reader.Progress.{
  Live, left, Uses, ReadsBytes, read_bytes-ReadsBytes, FillUses, fill-FillUses,
}
use go_network_lab.Http.Reader.Search.{index_of-eq-some}
use go_network_lab.Http.Syntax.{
  Request, Headers, values_of, or_empty, to_lower, validate_request_semantics, check_hosts,
}
use go_network_lab.Http.Body.{atoi, content_length, read_body, read_chunked_body}
use go_network_lab.Http.Reader.Behaves.{
  Behaves, Behaves-bind, Behaves-fail_if, Behaves-later, Behaves-map, Settles, Behaves-settled,
}
use go_network_lab.Http.Body.Chunks.{LoopRead, read_chunked_body-Chunked}
use go_network_lab.Http.Parser.{
  head_loop, read_head, separator, max_header_bytes, parse_head, split_lines, read_request,
}
use go_network_lab.Http.Parser.Checks.{parse_head-Settles, check_hosts-Settles}

-- The place of the separator in the buffer, and what the reader has still left.
abbrev HeadUses : Reader → ℕ × Reader → Type 0
HeadUses r (end, r1) = (index_of separator r1.buffer ≡ some end) × Uses r 0 r1

HeadUses-more :
    (r r1 : Reader) (x : Outcome HttpError (ℕ × Reader))
    → left r1 ≤ left r
    → (Live r → Live r1)
    → Behaves r1 (HeadUses r1) x
    → Behaves r (HeadUses r) x
HeadUses-more r r1 (ok (end, r2)) le live (found, (used, on)) =
    (found, (omega arith, λ l. on (live l)))
HeadUses-more r r1 (err e) le live h = tt
HeadUses-more r r1 panic le live h = tt
HeadUses-more r r1 stuck le live h = λ l. h (live l)

head_loop-HeadUses :
    (fuel : ℕ) (r : Reader) → supply r.events < fuel → Behaves r (HeadUses r) (head_loop fuel r)
unfolding head_loop fill
head_loop-HeadUses zero r h = absurd (omega arith)
head_loop-HeadUses (suc fuel) r h = elim (Option-cases (index_of separator r.buffer)) [
  | inr (end, found) ↦ rw (found, head_loop) (found, (omega arith, λ l. l))
  | inl missing ↦ elim (Bool-cases (leb max_header_bytes (length r.buffer))) [
    | inl large ↦ rw (missing, large, head_loop) tt
    | inr small ↦ elim (Option-cases r.read_err) [
      | inr (e, failed) ↦ rw (missing, small, failed, head_loop) tt
      | inl quiet ↦
          go (head_loop-HeadUses fuel) missing small quiet
            (fill (min 1024 (max_header_bytes - length r.buffer)) r) refl
            (fill-FillUses (min 1024 (max_header_bytes - length r.buffer)) r)
    ]
  ]
]
  where
    go :
        ((r1 : Reader) → supply r1.events < fuel → Behaves r1 (HeadUses r1) (head_loop fuel r1))
        → index_of separator r.buffer ≡ none
        → leb max_header_bytes (length r.buffer) ≡ false
        → r.read_err ≡ none
        → (x : Option Reader) → fill (min 1024 (max_header_bytes - length r.buffer)) r ≡ x
        → FillUses (min 1024 (max_header_bytes - length r.buffer)) r x
        → Behaves r (HeadUses r) (head_loop (suc fuel) r)
    go ih missing small quiet none e never =
        rw (missing, small, quiet, e, head_loop)
          (λ l. elim l [ inl fails ↦ absurd (fails refl) | inr closes ↦ never closes ])
    go ih missing small quiet (some r1) e (le, less, on, same) =
        let room : 0 < min 1024 (max_header_bytes - length r.buffer) = ground arith in
        rw (missing, small, quiet, e, head_loop)
          (HeadUses-more (record r { read_err = none }) r1 (head_loop fuel r1) le
            (λ l. elim l [ inl fails ↦ absurd (fails refl) | inr closes ↦ on closes ])
            (ih r1 (omega (arith, less room))))

content_length-Settles :
    (first : Bool) (n : ℕ) (vs : List Bytes) → Settles (content_length first n vs)
unfolding content_length
content_length-Settles first n [] = tt
content_length-Settles first n (v ∷ vs) = elim (Option-cases (atoi v)) [
  | inl invalid ↦ rw (invalid, content_length) tt
  | inr (m, valid) ↦ elim (Bool-cases (not first && not (m == n))) [
    | inl differs ↦ rw (valid, differs, content_length) tt
    | inr same ↦ rw (valid, same, content_length) (content_length-Settles false m vs)
  ]
]

bytes_use :
    (r : Reader) (size : ℕ) (m : Outcome HttpError (Bytes × Reader))
    → ReadsBytes r size m
    → Behaves r (λ (body, r'). Uses r 0 r') m
bytes_use r size (ok (bytes, r')) (n, w, (used, on)) = (omega arith, on)
bytes_use r size (err e) h = tt
bytes_use r size panic h = tt
bytes_use r size stuck h = h

-- A body takes what it needs.
body-Uses :
    (max_alloc : ℕ) (r : Reader) (headers : Headers)
    → Behaves r (λ (body, r'). Uses r 0 r') (read_body max_alloc r headers)
unfolding read_body
body-Uses max_alloc r headers =
    elim (Option-cases (values_of (codes "transfer-encoding") headers)) [
      | inl plain ↦
          let vs = or_empty (values_of (codes "content-length") headers) in
          rw (plain, read_body)
            (Behaves-settled r (λ (body, r'). Uses r 0 r') (content_length true 0 vs)
              (λ n. read_bytes max_alloc r n) (content_length-Settles true 0 vs)
              λ n. bytes_use r n (read_bytes max_alloc r n) (read_bytes-ReadsBytes max_alloc r n))
      | inr (encodings, coded) ↦
          elim (Bool-cases (bytes_eq (to_lower (join b',' encodings)) (codes "chunked"))) [
            | inr other ↦ rw (coded, other, read_body) tt
            | inl same ↦ elim (Option-cases (values_of (codes "content-length") headers)) [
              | inr (lengths, both) ↦ rw (coded, same, both, read_body) tt
              | inl alone ↦
                  rw (coded, same, alone, read_body)
                    (Behaves-map r (LoopRead [] r) (λ (body, r'). Uses r 0 r')
                      (read_chunked_body max_alloc r)
                      (λ (body, r') (_, _, _, _, _, (used, on)). (omega arith, on))
                      (read_chunked_body-Chunked max_alloc r))
            ]
          ]
    ]

-- A head takes at least the four bytes of the separator.
drop_head :
    (r r1 : Reader) (end : ℕ)
    → HeadUses r (end, r1)
    → Uses r 4 (record r1 { buffer = drop (end + length separator) r1.buffer })
drop_head r r1 end (found, (used, on)) =
    let split = index_of-eq-some separator r1.buffer end found in
    let behind = drop (end + length separator) r1.buffer in
    let size : length r1.buffer ≡ length (take end r1.buffer ++ (separator ++ behind)) =
      ap length split in
    (omega (arith, length-append {0} (take end r1.buffer) (separator ++ behind)), on)

-- `readRequest` takes at least four bytes for a request, and blocks only if the connection never
-- closes.
pub read_request-Uses :
    (max_alloc : ℕ) (r : Reader) → Behaves r (λ (q, r'). Uses r 4 r') (read_request max_alloc r)
unfolding read_request read_head validate_request_semantics
read_request-Uses max_alloc r =
    let P : Request × Reader → Type 0 = λ (q, r'). Uses r 4 r' in
    let with_body : Request → Bytes × Reader → Outcome HttpError (Request × Reader) =
      λ q (body, rest). ok (record q { body = body }, rest) in
    let with_head : Reader → Request → Outcome HttpError (Request × Reader) = λ r2 q.
      check_hosts (or_empty (values_of (codes "host") q.headers))
      >> (read_body max_alloc r2 q.headers >>= with_body q) in
    let behind : ℕ → Reader → Reader =
      λ end r1. record r1 { buffer = drop (end + length separator) r1.buffer } in
    let with_end : ℕ × Reader → Outcome HttpError (Request × Reader) = λ (end, r1).
      fail_if (ltb max_header_bytes (end + length separator)) headers_too_large
      >> (parse_head (split_lines (take end r1.buffer)) >>= with_head (behind end r1)) in
    Behaves-bind r (HeadUses r) P (head_loop (suc (supply r.events)) r) with_end
      (head_loop-HeadUses (suc (supply r.events)) r (omega arith))
      λ (end, r1) h.
        let u = drop_head r r1 end h in
        Behaves-fail_if r P (ltb max_header_bytes (end + length separator)) headers_too_large
          (parse_head (split_lines (take end r1.buffer)) >>= with_head (behind end r1))
          λ small.
            Behaves-settled r P (parse_head (split_lines (take end r1.buffer)))
              (with_head (behind end r1)) (parse_head-Settles (split_lines (take end r1.buffer)))
              λ q.
                Behaves-settled r P (check_hosts (or_empty (values_of (codes "host") q.headers)))
                  (λ _. read_body max_alloc (behind end r1) q.headers >>= with_body q)
                  (check_hosts-Settles (or_empty (values_of (codes "host") q.headers)))
                  λ _.
                    Behaves-later r (behind end r1) P
                      (read_body max_alloc (behind end r1) q.headers >>= with_body q) (u.1)
                      (Behaves-bind (behind end r1) (λ (body, r'). Uses (behind end r1) 0 r') P
                        (read_body max_alloc (behind end r1) q.headers) (with_body q)
                        (body-Uses max_alloc (behind end r1) q.headers)
                        λ (body, r') (used, on). (omega (arith, u.0), λ l. on (u.1 l)))
