-- ===== src/Http/Reader/Progress.antt =====
-- Reading uses up what the connection delivers, and comes to the end of a connection that closes.
use go_network_lab.Base.{
  ℕ, zero, suc, ◌+◌, ◌-◌, ◌≤◌, ◌<◌, ◌≡◌, ◌≢◌, refl, sym, ap, ◌∙◌, subst, ◌⊎◌, inl, inr, List, [],
  ◌∷◌, ◌++◌, append_assoc, Option, none, some, Bytes, length, take, drop, length-append,
  length-take, length-drop, ltb, leb, Bool-cases, Option-cases, arith, Outcome, ok, err, panic,
  stuck,
}
use go_network_lab.Base.Io.{IoError}
use go_network_lab.Http.Reader.{
  ReadEvent, Reader, HttpError, read_some, read_full, read_bytes, finish_read, unless_failed, fill,
  supply,
}
use go_network_lab.Http.Reader.Meaning.{
  bytes_of, arriving, Reads, read_some-Reads, Takes, read_bytes-Takes,
}

-- An error comes by itself at some time, as it does where the peer closes the connection.
abbrev pub Closes : List ReadEvent → Type 0
Closes [] = ⊥
Closes (e ∷ es) = ((e.arrived ≡ []) × (e.failure ≢ none)) ⊎ Closes es

-- A reader that has failed, or will.
abbrev pub Live : Reader → Type 0
Live r = (r.read_err ≢ none) ⊎ Closes r.events

-- What is left for a reader to use.
abbrev pub left : Reader → ℕ
left r = length r.buffer + supply r.events

-- A result of `Read`: it takes what it returns, and keeps the end.
abbrev Keeps : List ReadEvent → Option (Bytes × Option IoError × List ReadEvent) → Type 0
Keeps events none = events ≡ []
Keeps events (some (bytes, failure, rest)) =
    (length bytes + supply rest ≤ supply events)
    × (Closes events → (((bytes ≡ []) × (failure ≢ none)) ⊎ Closes rest))

read_some-Keeps : (n : ℕ) (events : List ReadEvent) → Keeps events (read_some n events)
unfolding read_some
read_some-Keeps n [] = refl
read_some-Keeps n (e ∷ es) = elim (Bool-cases (leb (length e.arrived) n)) [
  | inl whole ↦ rw (whole, read_some) (omega arith, λ c. c)
  | inr part ↦
      let more : n < length e.arrived = ground arith in
      let kept = length-drop n e.arrived in
      let first = length-take n e.arrived in
      rw (part, read_some)
        (
          omega arith,
          λ c. elim c [
            | inl (empty, fails) ↦
                let z : length e.arrived ≡ 0 = ap length empty in absurd (omega arith)
            | inr later ↦ inr (inr later)
          ],
        )
]

-- A result of the loop of `io.ReadFull`.
abbrev FullUses : Bytes → List ReadEvent → Outcome IoError (Bytes × List ReadEvent) → Type 0
FullUses got events (ok (bytes, rest)) =
    (length bytes + supply rest ≤ length got + supply events) × (Closes events → Closes rest)
FullUses got events stuck = Closes events → ⊥
FullUses got events (err e) = Unit
FullUses got events panic = Unit

FullUses-more :
    (got bytes : Bytes) (events rest : List ReadEvent)
    (x : Outcome IoError (Bytes × List ReadEvent))
    → length bytes + supply rest ≤ supply events
    → (Closes events → Closes rest)
    → FullUses (got ++ bytes) rest x
    → FullUses got events x
FullUses-more got bytes events rest (ok (b, r)) le keeps (h, k) =
    (omega (arith, length-append {0} got bytes), λ c. k (keeps c))
FullUses-more got bytes events rest (err e) le keeps h = tt
FullUses-more got bytes events rest panic le keeps h = tt
FullUses-more got bytes events rest stuck le keeps h = λ c. h (keeps c)

read_full-Uses :
    (fuel need : ℕ) (got : Bytes) (events : List ReadEvent)
    → supply events < fuel
    → FullUses got events (read_full fuel need got events)
unfolding read_full
read_full-Uses fuel zero got events h = (omega arith, λ c. c)
read_full-Uses zero (suc need) got events h = absurd (omega arith)
read_full-Uses (suc fuel) (suc need) got events h =
    go (read_full-Uses fuel) (read_some (suc need) events) refl (read_some-Keeps (suc need) events)
      (read_some-Reads (suc need) events)
  where
    go :
        ((need' : ℕ) (got' : Bytes) (events' : List ReadEvent)
          → supply events' < fuel
          → FullUses got' events' (read_full fuel need' got' events'))
        → (x : Option (Bytes × Option IoError × List ReadEvent)) → read_some (suc need) events ≡ x
        → Keeps events x
        → Reads (suc need) events x
        → FullUses got events (read_full (suc fuel) (suc need) got events)
    go ih none e nothing _ = rw (e, read_full) (λ c. rw nothing at c)
    go ih (some (bytes, failure, rest)) e (le, keeps) (_, _, less, _) =
        elim (Bool-cases (leb (suc need) (length bytes))) [
          | inl enough ↦
              let some_bytes : suc need ≤ length bytes = ground arith in
              rw (e, enough, read_full)
                (
                  omega (arith, length-append {0} got bytes),
                  λ c. elim (keeps c) [
                    | inl (empty, fails) ↦
                        let z : length bytes ≡ 0 = ap length empty in absurd (omega arith)
                    | inr later ↦ later
                  ],
                )
          | inr short ↦ elim (Option-cases failure) [
            | inr (f, failed) ↦ rw (e, short, failed, read_full) tt
            | inl quiet ↦
                let kept : Closes events → Closes rest = λ c. elim (keeps c) [
                  | inl (empty, fails) ↦ absurd (fails quiet)
                  | inr later ↦ later
                ] in
                rw (e, short, quiet, read_full)
                  (FullUses-more got bytes events rest _ le kept (
                    ih (suc need - length bytes) (got ++ bytes) rest
                      (omega (arith, less (omega arith)))))
          ]
        ]

-- What a reader has used up behind a call that takes `n` bytes.
abbrev pub Uses : Reader → ℕ → Reader → Type 0
Uses r n r' = (n + left r' ≤ left r) × (Live r → Live r')

-- A result that is read, of `size` bytes.
abbrev Advances : Reader → Outcome HttpError (Bytes × Reader) → Type 0
Advances r (ok (bytes, r')) = Uses r (length bytes) r'
Advances r (err e) = Unit
Advances r panic = Unit
Advances r stuck = Live r → ⊥

finish_read-Advances :
    (r : Reader) (size : ℕ) (x : Outcome IoError (Bytes × List ReadEvent))
    → r.read_err ≡ none
    → FullUses [] r.events x
    → Advances r (finish_read (take size r.buffer) (record r { buffer = drop size r.buffer }) x)
unfolding finish_read
finish_read-Advances r size (ok (bytes, rest)) quiet (le, keeps) =
    let first = length-take size r.buffer in
    let dropped = length-drop size r.buffer in
    (
      omega (arith, length-append {0} (take size r.buffer) bytes),
      λ l. elim l [ inl fails ↦ absurd (fails quiet) | inr closes ↦ inr (keeps closes) ],
    )
finish_read-Advances r size (err e) quiet h = tt
finish_read-Advances r size panic quiet h = tt
finish_read-Advances r size stuck quiet h =
    λ l. elim l [ inl fails ↦ absurd (fails quiet) | inr closes ↦ h closes ]

read_bytes-Advances :
    (max_alloc : ℕ) (r : Reader) (size : ℕ) → Advances r (read_bytes max_alloc r size)
unfolding read_bytes
read_bytes-Advances max_alloc r size = elim (Bool-cases (ltb max_alloc size)) [
  | inl large ↦ rw (large, read_bytes) tt
  | inr possible ↦
      let copied = take size r.buffer in
      let first = length-take size r.buffer in
      let dropped = length-drop size r.buffer in
      elim (Bool-cases (leb size (length copied))) [
        | inl enough ↦ rw (possible, enough, read_bytes) (omega arith, λ l. l)
        | inr short ↦ elim (Option-cases r.read_err) [
          | inr (e, failed) ↦ rw (possible, short, failed, read_bytes) tt
          | inl quiet ↦
              let missing = size - length copied in
              let fresh =
                finish_read copied (record r { buffer = drop size r.buffer })
                  (read_full (suc (supply r.events)) missing [] r.events) in
              let opened : unless_failed r.read_err fresh ≡ fresh =
                ap (λ e. unless_failed e fresh) quiet in
              rw (possible, short, read_bytes)
                (subst (λ x. Advances r x) (sym opened)
                  (finish_read-Advances r size
                    (read_full (suc (supply r.events)) missing [] r.events) quiet
                    (read_full-Uses (suc (supply r.events)) missing [] r.events (omega arith))))
        ]
      ]
]

-- A result of `readBytes`: the next bytes that arrive, as many as wanted, and the call blocks only if
-- the connection never closes.
abbrev pub ReadsBytes : Reader → ℕ → Outcome HttpError (Bytes × Reader) → Type 0
ReadsBytes r size (ok (bytes, r')) =
    (length bytes ≡ size) × (bytes ++ arriving r' ≡ arriving r) × Uses r size r'
ReadsBytes r size (err e) = Unit
ReadsBytes r size panic = Unit
ReadsBytes r size stuck = Live r → ⊥

both_ways :
    (r : Reader) (size : ℕ) (x : Outcome HttpError (Bytes × Reader))
    → Takes r size x
    → Advances r x
    → ReadsBytes r size x
both_ways r size (ok (bytes, r')) (count, whole) (le, live) = (count, whole, (omega arith, live))
both_ways r size (err e) t a = tt
both_ways r size panic t a = tt
both_ways r size stuck t a = a

pub read_bytes-ReadsBytes :
    (max_alloc : ℕ) (r : Reader) (size : ℕ) → ReadsBytes r size (read_bytes max_alloc r size)
unfolding read_bytes
read_bytes-ReadsBytes max_alloc r size = elim (Bool-cases (ltb max_alloc size)) [
  | inl large ↦ rw (large, read_bytes) tt
  | inr possible ↦
      both_ways r size (read_bytes max_alloc r size)
        (read_bytes-Takes max_alloc r size (ground arith)) (read_bytes-Advances max_alloc r size)
]

-- One call of `Read` into the buffer.
abbrev pub FillUses : ℕ → Reader → Option Reader → Type 0
FillUses n r none = Closes r.events → ⊥
FillUses n r (some r') =
    (left r' ≤ left r)
    × (0 < n → supply r'.events < supply r.events)
    × (Closes r.events → Live r')
    × (arriving r' ≡ arriving r)

pub fill-FillUses : (n : ℕ) (r : Reader) → FillUses n r (fill n r)
unfolding fill
fill-FillUses n r =
    go (read_some n r.events) refl (read_some-Keeps n r.events) (read_some-Reads n r.events)
  where
    go :
        (x : Option (Bytes × Option IoError × List ReadEvent))
        → read_some n r.events ≡ x
        → Keeps r.events x
        → Reads n r.events x
        → FillUses n r (fill n r)
    go none e nothing _ = rw (e, fill) (λ c. rw nothing at c)
    go (some (bytes, failure, rest)) e (le, keeps) (split, size, less, later) =
        rw (e, fill)
          (
            omega (arith, length-append {0} r.buffer bytes),
            less,
            (λ c. elim (keeps c) [ inl (empty, fails) ↦ inl fails | inr on ↦ inr on ]),
            append_assoc r.buffer bytes (bytes_of rest) ∙ ap (◌++◌ r.buffer) split,
          )
