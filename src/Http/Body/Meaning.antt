-- ===== src/Http/Body/Meaning.antt =====
-- Which lengths are accepted, and which bytes a body takes.
use go_network_lab.Base.{
  ℕ, ◌≡◌, ◌≢◌, refl, sym, subst, ap, ◌∙◌, ◌↔◌, ◌⊎◌, inl, inr, true, false, List, [], ◌∷◌, ◌++◌,
  none, some, Bytes, codes, length, ltb, ◌==◌, Bool-cases, Option-cases, All, arith, ok, err, panic,
  bytes_eq, bytes_eq_iff, >>=-eq-ok,
}
use go_network_lab.Base.{◌>>=◌}
use go_network_lab.Http.Reader.Meaning.{arriving, read_bytes-Takes}
use go_network_lab.Base.Strings.{join}
use go_network_lab.Http.Reader.{unsupported_encoding, both_framings, Reader, read_bytes}
use go_network_lab.Http.Syntax.{Headers, values_of, or_empty, to_lower}
use go_network_lab.Http.Body.Rounds.{ChunkedText}
use go_network_lab.Http.Body.Chunks.{LoopRead, read_chunked_body-Chunked}
use go_network_lab.Http.Body.{atoi, content_length, read_body, read_chunked_body}

content_length-to :
    (n m : ℕ) (vs : List Bytes)
    → content_length false n vs ≡ ok m
    → (n ≡ m) × All (λ v. atoi v ≡ some m) vs
unfolding content_length
content_length-to n m [] h = (ground arith, tt)
content_length-to n m (v ∷ vs) h = elim (Option-cases (atoi v)) [
  | inl invalid ↦ let bad : err _ ≡ ok m = rw (invalid, content_length) at h in cc
  | inr (k, valid) ↦ elim (Bool-cases (k == n)) [
    | inl same ↦
        let rest : content_length false k vs ≡ ok m =
          rw same at (rw (valid, content_length) at h) in
        let (e, all) = content_length-to k m vs rest in (ground arith, (valid ∙ ap some e, all))
    | inr other ↦ let bad : err _ ≡ ok m = rw other at (rw (valid, content_length) at h) in cc
  ]
]

content_length-from :
    (m : ℕ) (vs : List Bytes) → All (λ v. atoi v ≡ some m) vs → content_length false m vs ≡ ok m
unfolding content_length
content_length-from m [] all = refl
content_length-from m (v ∷ vs) (valid, all) =
    let same : (m == m) ≡ true = ground arith in
    rw (valid, same, content_length) (content_length-from m vs all)

-- The values of the field `Content-Length` give a length exactly if each is a number of that value,
-- and no value gives 0.
content_length_iff :
    (m : ℕ) (vs : List Bytes)
    → (content_length true 0 vs ≡ ok m)
      ↔ ((vs ≡ []) × (m ≡ 0) ⊎ (vs ≢ []) × All (λ v. atoi v ≡ some m) vs)
unfolding content_length
content_length_iff m [] = (
  (λ h. inl (refl, ground arith)),
  λ e. elim e [ inl (_, z) ↦ rw z refl | inr (some_value, _) ↦ absurd (some_value refl) ],
)
content_length_iff m (v ∷ vs) = (
  (λ h. inr (
    (λ e. cc),
    elim (Option-cases (atoi v)) [
      | inl invalid ↦ let bad : err _ ≡ ok m = rw (invalid, content_length) at h in cc
      | inr (k, valid) ↦
          let rest : content_length false k vs ≡ ok m = rw (valid, content_length) at h in
          let (e, all) = content_length-to k m vs rest in (valid ∙ ap some e, all)
    ],
  )),
  λ e. elim e [
    | inl (empty, _) ↦ cc
    | inr (_, (valid, all)) ↦ rw (valid, content_length) (content_length-from m vs all)
  ],
)

-- The length that the field `Content-Length` gives, 0 if there is none.
abbrev pub LengthIs : ℕ → Headers → Type 0
LengthIs m headers =
    let vs = or_empty (values_of (codes "content-length") headers) in
    (vs ≡ []) × (m ≡ 0) ⊎ (vs ≢ []) × All (λ v. atoi v ≡ some m) vs

-- A body of the length that is declared.
abbrev pub Sized : Reader → Headers → Bytes → Reader → Type 0
Sized r headers body r' =
    (values_of (codes "transfer-encoding") headers ≡ none)
    × LengthIs (length body) headers
    × (body ++ arriving r' ≡ arriving r)

-- A chunked body, where no length is declared: the next bytes that arrive are a chunked text, whose
-- body this is.
abbrev pub Chunked : Reader → Headers → Bytes → Reader → Type 0
Chunked r headers body r' =
    (encodings : List Bytes) × (values_of (codes "transfer-encoding") headers ≡ some encodings)
    × (to_lower (join b',' encodings) ≡ codes "chunked")
    × (values_of (codes "content-length") headers ≡ none)
    × ((text : Bytes) × ChunkedText text body × (text ++ arriving r' ≡ arriving r))

module _ (max_alloc : ℕ) where
  chunks_read :
      (r : Reader) (body : Bytes) (r' : Reader)
      → read_chunked_body max_alloc r ≡ ok (body, r')
      → (text : Bytes) × ChunkedText text body × (text ++ arriving r' ≡ arriving r)
  chunks_read r body r' h =
      let (text, carried, chunks, same, whole, _) : LoopRead [] r (body, r') =
        rw h at (read_chunked_body-Chunked max_alloc r) in
      (text, subst (ChunkedText text) (sym same) chunks, whole)

  read_bytes-eq-ok :
      (r : Reader) (size : ℕ) (body : Bytes) (r' : Reader)
      → read_bytes max_alloc r size ≡ ok (body, r')
      → (length body ≡ size) × (body ++ arriving r' ≡ arriving r)
  unfolding read_bytes
  read_bytes-eq-ok r size body r' h = elim (Bool-cases (ltb max_alloc size)) [
    | inl large ↦ let bad : panic ≡ ok (body, r') = rw (large, read_bytes) at h in cc
    | inr fits ↦ rw h at (read_bytes-Takes max_alloc r size (ground arith))
  ]

  read_body-Sized :
      (r : Reader) (headers : Headers) (body : Bytes) (r' : Reader)
      → values_of (codes "transfer-encoding") headers ≡ none
      → read_body max_alloc r headers ≡ ok (body, r')
      → Sized r headers body r'
  unfolding read_body
  read_body-Sized r headers body r' plain h =
      let vs = or_empty (values_of (codes "content-length") headers) in
      let h' : content_length true 0 vs >>= (λ n. read_bytes max_alloc r n) ≡ ok (body, r') =
        rw (plain, read_body) at h in
      let (n, counted, got) =
        >>=-eq-ok (content_length true 0 vs) (λ n. read_bytes max_alloc r n) h' in
      let (size, whole) = read_bytes-eq-ok r n body r' got in
      (plain, rw size ((content_length_iff n vs).0 counted), whole)

  read_body-Chunked :
      (r : Reader) (headers : Headers) (body : Bytes) (r' : Reader) (encodings : List Bytes)
      → values_of (codes "transfer-encoding") headers ≡ some encodings
      → read_body max_alloc r headers ≡ ok (body, r')
      → Chunked r headers body r'
  unfolding read_body
  read_body-Chunked r headers body r' encodings coded h =
      elim (Bool-cases (bytes_eq (to_lower (join b',' encodings)) (codes "chunked"))) [
        | inr other ↦
            let bad : err unsupported_encoding ≡ ok (body, r') =
              rw (coded, other, read_body) at h in
            cc
        | inl same ↦ elim (Option-cases (values_of (codes "content-length") headers)) [
          | inr (lengths, both) ↦
              let bad : err both_framings ≡ ok (body, r') =
                rw (coded, same, both, read_body) at h in
              cc
          | inl alone ↦ (
            encodings,
            coded,
            (bytes_eq_iff (to_lower (join b',' encodings)) (codes "chunked")).0 same,
            alone,
            chunks_read r body r' (rw (coded, same, alone, read_body) at h),
          )
        ]
      ]

  -- A body is read as many bytes as every `Content-Length` says, the next ones that arrive, or as
  -- chunks; never where the headers have both framings, unequal lengths or another encoding.
  pub read_body-eq-ok :
      (r : Reader) (headers : Headers) (body : Bytes) (r' : Reader)
      → read_body max_alloc r headers ≡ ok (body, r')
      → Sized r headers body r' ⊎ Chunked r headers body r'
  read_body-eq-ok r headers body r' h =
      elim (Option-cases (values_of (codes "transfer-encoding") headers)) [
        | inl plain ↦ inl (read_body-Sized r headers body r' plain h)
        | inr (encodings, coded) ↦ inr (read_body-Chunked r headers body r' encodings coded h)
      ]
