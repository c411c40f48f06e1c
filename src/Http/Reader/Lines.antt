-- ===== src/Http/Reader/Lines.antt =====
-- What `readChunkLine` reads.
use go_network_lab.Base.{
  ℕ, zero, suc, ◌+◌, ◌≤◌, ◌<◌, ◌≡◌, refl, sym, ap, ◌∙◌, inl, inr, ◌++◌, append_assoc, Option, none,
  some, Bytes, length, take, drop, length-append, Option-cases, arith, Outcome, ok, err, panic,
  stuck,
}
use go_network_lab.Base.Io.{IoError}
use go_network_lab.Http.Reader.{Reader, line_loop, read_chunk_line, index_of, crlf, supply, fill}
use go_network_lab.Http.Reader.Meaning.{bytes_of, arriving}
use go_network_lab.Http.Reader.Search.{index_of-eq-some}
use go_network_lab.Http.Reader.Progress.{Live, left, Uses, FillUses, fill-FillUses}

-- A result: the line and its end are the next bytes that arrive; the call blocks only if the
-- connection never closes.
abbrev pub ReadsLine : Reader → Outcome IoError (Bytes × Reader) → Type 0
ReadsLine r (ok (line, r')) =
    (line ++ (crlf ++ arriving r') ≡ arriving r) × Uses r (length line + 2) r'
ReadsLine r (err e) = Unit
ReadsLine r panic = ⊥
ReadsLine r stuck = Live r → ⊥

found_line :
    (r : Reader) (end : ℕ)
    → index_of crlf r.buffer ≡ some end
    → ReadsLine r (ok (take end r.buffer, record r { buffer = drop (end + 2) r.buffer }))
found_line r end found =
    let split = index_of-eq-some crlf r.buffer end found in
    let behind = drop (end + 2) r.buffer in
    let size : length r.buffer ≡ length (take end r.buffer ++ (crlf ++ behind)) = ap length split in
    (
      sym (
          ap (λ x. x ++ bytes_of r.events) split
          ∙ append_assoc (take end r.buffer) (crlf ++ behind) (bytes_of r.events)),
      (omega (arith, length-append {0} (take end r.buffer) (crlf ++ behind)), λ l. l),
    )

ReadsLine-more :
    (r r1 : Reader) (x : Outcome IoError (Bytes × Reader))
    → left r1 ≤ left r
    → (Live r → Live r1)
    → arriving r1 ≡ arriving r
    → ReadsLine r1 x
    → ReadsLine r x
ReadsLine-more r r1 (ok (line, r')) le live same (whole, (used, on)) =
    (whole ∙ same, (omega arith, λ l. on (live l)))
ReadsLine-more r r1 (err e) le live same h = tt
ReadsLine-more r r1 panic le live same h = h
ReadsLine-more r r1 stuck le live same h = λ l. h (live l)

line_loop-ReadsLine :
    (fuel : ℕ) (r : Reader) → supply r.events < fuel → ReadsLine r (line_loop fuel r)
unfolding line_loop
line_loop-ReadsLine zero r h = absurd (omega arith)
line_loop-ReadsLine (suc fuel) r h = elim (Option-cases (index_of crlf r.buffer)) [
  | inr (end, found) ↦ rw (found, line_loop) (found_line r end found)
  | inl missing ↦ elim (Option-cases r.read_err) [
    | inr (e, failed) ↦ rw (missing, failed, line_loop) tt
    | inl quiet ↦
        go (line_loop-ReadsLine fuel) missing quiet (fill 1024 r) refl (fill-FillUses 1024 r)
  ]
]
  where
    go :
        ((r1 : Reader) → supply r1.events < fuel → ReadsLine r1 (line_loop fuel r1))
        → index_of crlf r.buffer ≡ none
        → r.read_err ≡ none
        → (x : Option Reader) → fill 1024 r ≡ x
        → FillUses 1024 r x
        → ReadsLine r (line_loop (suc fuel) r)
    go ih missing quiet none e never =
        rw (missing, quiet, e, line_loop)
          (λ l. elim l [ inl fails ↦ absurd (fails refl) | inr closes ↦ never closes ])
    go ih missing quiet (some r1) e (le, less, on, same) =
        rw (missing, quiet, e, line_loop)
          (ReadsLine-more (record r { read_err = none }) r1 (line_loop fuel r1) le
            (λ l. elim l [ inl fails ↦ absurd (fails refl) | inr closes ↦ on closes ]) same
            (ih r1 (omega (arith, less (omega arith)))))

pub read_chunk_line-ReadsLine : (r : Reader) → ReadsLine r (read_chunk_line r)
unfolding read_chunk_line
read_chunk_line-ReadsLine r = line_loop-ReadsLine (suc (supply r.events)) r (omega arith)
