-- ===== src/Http/Reader/Meaning.antt =====
-- What is read are the bytes that arrive, in their order.
use go_network_lab.Base.{
  ℕ, zero, suc, ◌+◌, ◌-◌, ◌≤◌, ◌<◌, ◌≡◌, ◌≢◌, refl, sym, ap, ◌∙◌, subst, ◌⊎◌, inl, inr, false, List,
  [], ◌∷◌, ◌++◌, append_assoc, Option, none, some, Bytes, length, take, drop, length-append,
  length-take, length-drop, take-append-drop, ltb, leb, Bool-cases, Option-cases, arith, Outcome,
  ok, err, panic, stuck,
}
use go_network_lab.Base.Io.{IoError}
use go_network_lab.Http.Reader.{
  ReadEvent, Reader, HttpError, read_some, read_full, read_bytes, finish_read, unless_failed,
  supply,
}

pub null_length : (s : Bytes) → length s ≡ 0 → s ≡ []
null_length [] h = refl
null_length (x ∷ s) h = absurd (omega arith)

abbrev pub bytes_of : List ReadEvent → Bytes
bytes_of [] = []
bytes_of (e ∷ es) = e.arrived ++ bytes_of es

-- The bytes that have been received and not used, and those still to arrive.
abbrev pub arriving : Reader → Bytes
arriving r = r.buffer ++ bytes_of r.events

-- An error will come at some time.
abbrev pub Ends : List ReadEvent → Type 0
Ends [] = ⊥
Ends (e ∷ es) = (e.failure ≢ none) ⊎ Ends es

-- A result of `Read`, against the events before it.
abbrev pub Reads : ℕ → List ReadEvent → Option (Bytes × Option IoError × List ReadEvent) → Type 0
Reads n events none = events ≡ []
Reads n events (some (bytes, failure, rest)) =
    (bytes ++ bytes_of rest ≡ bytes_of events)
    × (length bytes ≤ n)
    × (0 < n → supply rest < supply events)
    × (failure ≡ none → Ends events → Ends rest)

pub read_some-Reads : (n : ℕ) (events : List ReadEvent) → Reads n events (read_some n events)
unfolding read_some
read_some-Reads n [] = refl
read_some-Reads n (e ∷ es) = elim (Bool-cases (leb (length e.arrived) n)) [
  | inl whole ↦
      rw (whole, read_some)
        (
          refl,
          ground arith,
          (λ p. omega arith),
          λ quiet ends. elim ends [ inl fails ↦ absurd (fails quiet) | inr later ↦ later ],
        )
  | inr part ↦
      let left = length-drop n e.arrived in
      let first = length-take n e.arrived in
      let more : n < length e.arrived = ground arith in
      rw (part, read_some)
        (
          sym (append_assoc (take n e.arrived) (drop n e.arrived) (bytes_of es))
              ∙ ap (λ x. x ++ bytes_of es) (take-append-drop n e.arrived),
          omega arith,
          (λ p. omega arith),
          λ quiet ends. ends,
        )
]

-- A result of the loop of `io.ReadFull`: exactly the bytes wanted, and nothing lost.
abbrev Fills : ℕ → Bytes → List ReadEvent → Outcome IoError (Bytes × List ReadEvent) → Type 0
Fills need got events (ok (bytes, rest)) =
    (length bytes ≡ length got + need) × (bytes ++ bytes_of rest ≡ got ++ bytes_of events)
Fills need got events (err e) = Unit
Fills need got events panic = ⊥
Fills need got events stuck = Ends events → ⊥

Fills-more :
    (need : ℕ) (got bytes : Bytes) (events rest : List ReadEvent)
    (x : Outcome IoError (Bytes × List ReadEvent))
    → bytes ++ bytes_of rest ≡ bytes_of events
    → length bytes < suc need
    → (Ends events → Ends rest)
    → Fills (suc need - length bytes) (got ++ bytes) rest x
    → Fills (suc need) got events x
Fills-more need got bytes events rest (ok (b, r)) split short later (size, whole) = (
  omega (arith, length-append {0} got bytes),
  whole ∙ append_assoc got bytes (bytes_of rest) ∙ ap (◌++◌ got) split,
)
Fills-more need got bytes events rest (err e) split short later h = tt
Fills-more need got bytes events rest panic split short later h = h
Fills-more need got bytes events rest stuck split short later h = λ ends. h (later ends)

read_full-Fills :
    (fuel need : ℕ) (got : Bytes) (events : List ReadEvent)
    → supply events < fuel
    → Fills need got events (read_full fuel need got events)
unfolding read_full
read_full-Fills fuel zero got events h = (omega arith, refl)
read_full-Fills zero (suc need) got events h = absurd (omega arith)
read_full-Fills (suc fuel) (suc need) got events h =
    go (read_full-Fills fuel) (read_some (suc need) events) refl (read_some-Reads (suc need) events)
  where
    go :
        ((need' : ℕ) (got' : Bytes) (events' : List ReadEvent)
          → supply events' < fuel
          → Fills need' got' events' (read_full fuel need' got' events'))
        → (x : Option (Bytes × Option IoError × List ReadEvent)) → read_some (suc need) events ≡ x
        → Reads (suc need) events x
        → Fills (suc need) got events (read_full (suc fuel) (suc need) got events)
    go ih none e nothing = rw (e, read_full) (λ ends. rw nothing at ends)
    go ih (some (bytes, failure, rest)) e (split, size, less, later) =
        elim (Bool-cases (leb (suc need) (length bytes))) [
          | inl enough ↦
              let all : suc need ≤ length bytes = ground arith in
              rw (e, enough, read_full)
                (
                  omega (arith, length-append {0} got bytes),
                  append_assoc got bytes (bytes_of rest) ∙ ap (◌++◌ got) split,
                )
          | inr short ↦ elim (Option-cases failure) [
            | inl quiet ↦
                let next =
                  ih (suc need - length bytes) (got ++ bytes) rest
                    (omega (arith, less (omega arith))) in
                rw (e, short, quiet, read_full)
                  (Fills-more need got bytes events rest _ split (ground arith) (later quiet) next)
            | inr (f, failed) ↦ rw (e, short, failed, read_full) tt
          ]
        ]

-- A result of `readBytes`: exactly the bytes wanted, and the others are left.
abbrev pub Takes : Reader → ℕ → Outcome HttpError (Bytes × Reader) → Type 0
Takes r size (ok (bytes, r')) = (length bytes ≡ size) × (bytes ++ arriving r' ≡ arriving r)
Takes r size (err e) = Unit
Takes r size panic = ⊥
Takes r size stuck = (r.read_err ≡ none) × (Ends r.events → ⊥)

from_buffer :
    (r : Reader) (size : ℕ)
    → take size r.buffer ++ (drop size r.buffer ++ bytes_of r.events) ≡ arriving r
from_buffer r size =
    sym (append_assoc (take size r.buffer) (drop size r.buffer) (bytes_of r.events))
    ∙ ap (λ x. x ++ bytes_of r.events) (take-append-drop size r.buffer)

finish_read-Takes :
    (r : Reader) (size : ℕ) (x : Outcome IoError (Bytes × List ReadEvent))
    → r.read_err ≡ none
    → length (take size r.buffer) < size
    → Fills (size - length (take size r.buffer)) [] r.events x
    → Takes r size (finish_read (take size r.buffer) (record r { buffer = drop size r.buffer }) x)
unfolding finish_read
finish_read-Takes r size (ok (bytes, rest)) quiet short (count, whole) =
    let first = length-take size r.buffer in
    let dropped = length-drop size r.buffer in
    let all_used : drop size r.buffer ≡ [] = null_length (drop size r.buffer) (omega arith) in
    (
      omega (arith, length-append {0} (take size r.buffer) bytes),
      rw all_used (
          append_assoc (take size r.buffer) bytes (bytes_of rest)
          ∙ ap (◌++◌ (take size r.buffer)) whole
          ∙ (rw all_used at (from_buffer r size))),
    )
finish_read-Takes r size (err e) quiet short h = tt
finish_read-Takes r size panic quiet short h = h
finish_read-Takes r size stuck quiet short h = (quiet, h)

-- A size that can be allocated is read as that many bytes, the next ones that arrive, or fails; the
-- call blocks only if the connection delivers neither enough bytes nor an error.
pub read_bytes-Takes :
    (max_alloc : ℕ) (r : Reader) (size : ℕ)
    → size ≤ max_alloc
    → Takes r size (read_bytes max_alloc r size)
unfolding read_bytes
read_bytes-Takes max_alloc r size fits =
    let possible : ltb max_alloc size ≡ false = ground arith in
    let copied = take size r.buffer in
    let missing = size - length copied in
    let first = length-take size r.buffer in
    elim (Bool-cases (leb size (length copied))) [
      | inl enough ↦
          let all : size ≤ length copied = ground arith in
          rw (possible, enough, read_bytes) (omega arith, from_buffer r size)
      | inr short ↦ elim (Option-cases r.read_err) [
        | inr (e, failed) ↦ rw (possible, short, failed, read_bytes) tt
        | inl quiet ↦
            let fresh =
              finish_read copied (record r { buffer = drop size r.buffer })
                (read_full (suc (supply r.events)) missing [] r.events) in
            let opened : unless_failed r.read_err fresh ≡ fresh =
              ap (λ e. unless_failed e fresh) quiet in
            rw (possible, short, read_bytes)
              (subst (λ x. Takes r size x) (sym opened)
                (finish_read-Takes r size (read_full (suc (supply r.events)) missing [] r.events)
                  quiet (ground arith)
                  (read_full-Fills (suc (supply r.events)) missing [] r.events (omega arith))))
      ]
    ]
