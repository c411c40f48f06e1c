-- ===== src/Http/Parser/Head.antt =====
-- The loop of `readRequest` that looks for the end of the head.
use go_network_lab.Base.{
  ℕ, zero, suc, ◌+◌, ◌-◌, ◌≤◌, ◌<◌, ◌≡◌, refl, sym, ap, ◌∙◌, subst, ◌⊎◌, inl, inr, min, List, ◌++◌,
  append_assoc, Option, none, some, Bytes, length, length-append, leb, Bool-cases, Option-cases,
  arith, Outcome, ok, err, panic, stuck,
}
use go_network_lab.Base.Io.{IoError}
use go_network_lab.Http.Reader.{ReadEvent, Reader, HttpError, io, read_some, fill, supply, index_of}
use go_network_lab.Http.Reader.Meaning.{bytes_of, arriving, Ends, Reads, read_some-Reads}
use go_network_lab.Http.Parser.{
  head_loop, read_head, unless_ended, once_filled, head_error, separator, max_header_bytes,
}

-- A result of the loop.
abbrev pub Finds : Reader → Outcome HttpError (ℕ × Reader) → Type 0
Finds r (ok (end, r')) =
    (index_of separator r'.buffer ≡ some end)
    × (arriving r' ≡ arriving r)
    × ((length r'.buffer ≤ max_header_bytes) ⊎ (r'.buffer ≡ r.buffer))
Finds r (err e) = Unit
Finds r panic = ⊥
Finds r stuck = (r.read_err ≡ none) × (Ends r.events → ⊥)

-- One call of `Read` into the buffer.
abbrev Filled : ℕ → Reader → Option Reader → Type 0
Filled n r none = Ends r.events → ⊥
Filled n r (some r') =
    (arriving r' ≡ arriving r)
    × (length r'.buffer ≤ length r.buffer + n)
    × (0 < n → supply r'.events < supply r.events)
    × (r'.read_err ≡ none → Ends r.events → Ends r'.events)

fill-Filled : (n : ℕ) (r : Reader) → Filled n r (fill n r)
unfolding fill
fill-Filled n r = go (read_some n r.events) refl (read_some-Reads n r.events)
  where
    go :
        (x : Option (Bytes × Option IoError × List ReadEvent))
        → read_some n r.events ≡ x
        → Reads n r.events x
        → Filled n r (fill n r)
    go none e nothing = rw (e, fill) (λ ends. rw nothing at ends)
    go (some (bytes, failure, rest)) e (split, size, less, later) =
        rw (e, fill)
          (
            append_assoc r.buffer bytes (bytes_of rest) ∙ ap (◌++◌ r.buffer) split,
            omega (arith, length-append {0} r.buffer bytes),
            less,
            later,
          )

Finds-more :
    (r r1 : Reader) (x : Outcome HttpError (ℕ × Reader))
    → arriving r1 ≡ arriving r
    → length r1.buffer ≤ max_header_bytes
    → (r1.read_err ≡ none → Ends r.events → Ends r1.events)
    → r.read_err ≡ none
    → Finds r1 x
    → Finds r x
Finds-more r r1 (ok (end, r')) same small later quiet (found, same', bound) =
    (found, same' ∙ same, inl (elim bound [ inl le ↦ le | inr kept ↦ rw kept small ]))
Finds-more r r1 (err e) same small later quiet h = tt
Finds-more r r1 panic same small later quiet h = h
Finds-more r r1 stuck same small later quiet (quiet', h) = (quiet, λ ends. h (later quiet' ends))

once_filled-Finds :
    (fuel n : ℕ) (r : Reader)
    → ((r1 : Reader) → supply r1.events < fuel → Finds r1 (head_loop fuel r1))
    → supply r.events < suc fuel
    → length r.buffer + n ≤ max_header_bytes
    → 0 < n
    → r.read_err ≡ none
    → (x : Option Reader) → Filled n r x
    → Finds r (once_filled x (λ r'. head_loop fuel r'))
once_filled-Finds fuel n r ih h room some_room quiet none filled = (quiet, filled)
once_filled-Finds fuel n r ih h room some_room quiet (some r1) (same, size, less, later) =
    let fewer = less some_room in
    Finds-more r r1 (head_loop fuel r1) same (omega arith) later quiet (ih r1 (omega arith))

unless_ended-Finds :
    (fuel : ℕ) (r : Reader)
    → ((r1 : Reader) → supply r1.events < fuel → Finds r1 (head_loop fuel r1))
    → supply r.events < suc fuel
    → length r.buffer < max_header_bytes
    → (r.read_err ≡ none) ⊎ ((e : IoError) × (r.read_err ≡ some e))
    → (let n = min 1024 (max_header_bytes - length r.buffer) in
        Finds r
          (unless_ended r.buffer r.read_err (once_filled (fill n r) (λ r'. head_loop fuel r'))))
unless_ended-Finds fuel r ih h room (inr (e, failed)) =
    let n = min 1024 (max_header_bytes - length r.buffer) in
    let more = once_filled (fill n r) (λ r'. head_loop fuel r') in
    let opened : unless_ended r.buffer r.read_err more ≡ err (io (head_error r.buffer e)) =
      ap (λ f. unless_ended r.buffer f more) failed in
    subst (λ x. Finds r x) (sym opened) tt
unless_ended-Finds fuel r ih h room (inl quiet) =
    let n = min 1024 (max_header_bytes - length r.buffer) in
    let more = once_filled (fill n r) (λ r'. head_loop fuel r') in
    let opened : unless_ended r.buffer r.read_err more ≡ more =
      ap (λ e. unless_ended r.buffer e more) quiet in
    subst (λ x. Finds r x) (sym opened)
      (once_filled-Finds fuel n r ih h (omega arith) (omega arith) quiet (fill n r)
        (fill-Filled n r))

head_loop-Finds : (fuel : ℕ) (r : Reader) → supply r.events < fuel → Finds r (head_loop fuel r)
unfolding head_loop
head_loop-Finds zero r h = absurd (omega arith)
head_loop-Finds (suc fuel) r h = elim (Option-cases (index_of separator r.buffer)) [
  | inr (end, found) ↦ rw (found, head_loop) (found, refl, inr refl)
  | inl missing ↦ elim (Bool-cases (leb max_header_bytes (length r.buffer))) [
    | inl full ↦ rw (missing, full, head_loop) tt
    | inr room ↦
        rw (missing, room, head_loop)
          (unless_ended-Finds fuel r (head_loop-Finds fuel) h (ground arith)
            (Option-cases r.read_err))
  ]
]

-- The loop ends if the connection delivers an error at some time; the head that it finds lies where
-- the first separator stands among the bytes that arrive, and no more than the limit is buffered,
-- unless nothing had to be read.
pub read_head-Finds : (r : Reader) → Finds r (read_head r)
unfolding read_head
read_head-Finds r = head_loop-Finds (suc (supply r.events)) r (omega arith)
