-- ===== src/Base/Io/Writing.antt =====
-- What the write loop sends.
use mathlib.Core.Path.{◌≡◌, refl, sym, ap, ◌∙◌}
use mathlib.Core.Bool.{false}
use mathlib.Core.List.{List, [], ◌∷◌, ◌++◌, append-nil, append_assoc}
use mathlib.Core.Logic.{◌≢◌, ◌⊎◌, inl, inr}
use mathlib.Core.Option.{none}
use Prim.Native.Nat.{ℕ, zero, suc, ◌-◌, ◌≤◌, ◌<◌}
use native.Mathlib.Omega.{arith}
use go_network_lab.Base.Tests.{Bytes, ◌==◌, ltb, Bool-cases, Option-cases}
use go_network_lab.Base.Lists.{length, take, drop, length-drop, take-append-drop}
use go_network_lab.Base.Outcomes.{Outcome, ok, err, panic, stuck}
use go_network_lab.Base.Io.{IoError, WriteResult, write_full}

abbrev pub SendsPart : Bytes → Bytes → Bytes → Type 0
SendsPart bytes sent sent' =
    (first : Bytes) × (last : Bytes) × (bytes ≡ first ++ last) × (sent' ≡ sent ++ first)

-- All the data was sent behind what was sent before if the loop succeeds, and else a part of it
-- from its start.
abbrev pub Sends : Bytes → Bytes → Outcome IoError (Unit {0}) × Bytes × List WriteResult → Type 0
Sends bytes sent (ok _, sent', plan) = sent' ≡ sent ++ bytes
Sends bytes sent (_, sent', plan) = SendsPart bytes sent sent'

SendsPart-more :
    (n : ℕ) (bytes sent sent' : Bytes)
    → SendsPart (drop n bytes) (sent ++ take n bytes) sent'
    → SendsPart bytes sent sent'
SendsPart-more n bytes sent sent' (first, last, split, s) = (
  take n bytes ++ first,
  last,
  sym (take-append-drop n bytes)
      ∙ ap (◌++◌ (take n bytes)) split
      ∙ sym (append_assoc (take n bytes) first last),
  s ∙ append_assoc sent (take n bytes) first,
)

SendsPart-take : (n : ℕ) (bytes sent : Bytes) → SendsPart bytes sent (sent ++ take n bytes)
SendsPart-take n bytes sent = (take n bytes, drop n bytes, sym (take-append-drop n bytes), refl)

Sends-more :
    (n : ℕ) (bytes sent : Bytes) (r : Outcome IoError (Unit {0}) × Bytes × List WriteResult)
    → Sends (drop n bytes) (sent ++ take n bytes) r
    → Sends bytes sent r
Sends-more n bytes sent (ok u, sent', plan) h =
    h ∙ append_assoc sent (take n bytes) (drop n bytes) ∙ ap (◌++◌ sent) (take-append-drop n bytes)
Sends-more n bytes sent (err e, sent', plan) h = SendsPart-more n bytes sent sent' h
Sends-more n bytes sent (panic, sent', plan) h = SendsPart-more n bytes sent sent' h
Sends-more n bytes sent (stuck, sent', plan) h = SendsPart-more n bytes sent sent' h

-- Whatever the writer does, the loop sends the data in order, and all of it if it succeeds.
pub write_full-Sends :
    (bytes : Bytes) (plan : List WriteResult) (sent : Bytes)
    → Sends bytes sent (write_full bytes plan sent)
unfolding write_full
write_full-Sends [] plan sent = sym (append-nil sent)
write_full-Sends (x ∷ bytes) [] sent = ([], x ∷ bytes, refl, sym (append-nil sent))
write_full-Sends (x ∷ bytes) (w ∷ ws) sent = elim (Option-cases w.failure) [
  | inr (e, failed) ↦ rw (failed, write_full) (SendsPart-take w.count (x ∷ bytes) sent)
  | inl fine ↦ elim (Bool-cases (w.count == 0)) [
    | inl nothing ↦ rw (fine, nothing, write_full) (SendsPart-take w.count (x ∷ bytes) sent)
    | inr some_bytes ↦ elim (Bool-cases (ltb (length (x ∷ bytes)) w.count)) [
      | inl beyond ↦
          rw (fine, some_bytes, beyond, write_full) (SendsPart-take w.count (x ∷ bytes) sent)
      | inr within ↦
          rw (fine, some_bytes, within, write_full)
            (Sends-more w.count (x ∷ bytes) sent _
              (write_full-Sends (drop w.count (x ∷ bytes)) ws (sent ++ take w.count (x ∷ bytes))))
    ]
  ]
]

-- The writer keeps the contract of `io.Writer` and makes progress until `n` bytes are taken.
abbrev pub Accepts : ℕ → List WriteResult → Type 0
Accepts zero ws = Unit
Accepts (suc n) [] = ⊥
Accepts (suc n) (w ∷ ws) =
    (w.failure ≡ none) × (0 < w.count) × (w.count ≤ suc n) × Accepts (suc n - w.count) ws

-- Then the loop succeeds, in however many pieces the data is taken.
pub write_full-Accepts :
    (bytes : Bytes) (plan : List WriteResult) (sent : Bytes)
    → Accepts (length bytes) plan
    → (rest : List WriteResult) × (write_full bytes plan sent ≡ (ok tt, sent ++ bytes, rest))
unfolding write_full
write_full-Accepts [] plan sent h = (plan, rw append-nil)
write_full-Accepts (x ∷ bytes) [] sent h = absurd h
write_full-Accepts (x ∷ bytes) (w ∷ ws) sent (fine, pos, le, later) =
    let some_bytes : (w.count == 0) ≡ false = ground arith in
    let within : ltb (length (x ∷ bytes)) w.count ≡ false = ground arith in
    let left : length (drop w.count (x ∷ bytes)) ≡ length (x ∷ bytes) - w.count =
      length-drop w.count (x ∷ bytes) in
    let (rest, e) =
      write_full-Accepts (drop w.count (x ∷ bytes)) ws (sent ++ take w.count (x ∷ bytes))
        (rw left later) in
    let whole : sent ++ take w.count (x ∷ bytes) ++ drop w.count (x ∷ bytes) ≡ sent ++ x ∷ bytes =
      append_assoc sent (take w.count (x ∷ bytes)) (drop w.count (x ∷ bytes))
      ∙ ap (◌++◌ sent) (take-append-drop w.count (x ∷ bytes)) in
    (rest, rw (fine, some_bytes, within, write_full) (rw whole at e))

-- What is sent before does not change what the loop does.
pub write_full-shift :
    (bytes : Bytes) (plan : List WriteResult) (sent : Bytes)
    → (let w = write_full bytes plan [] in write_full bytes plan sent ≡ (w.0, sent ++ w.1, w.2))
unfolding write_full
write_full-shift [] plan sent = rw append-nil
write_full-shift (x ∷ bytes) [] sent = rw append-nil
write_full-shift (x ∷ bytes) (w ∷ ws) sent = elim (Option-cases w.failure) [
  | inr (e, failed) ↦ rw (failed, write_full) refl
  | inl fine ↦ elim (Bool-cases (w.count == 0)) [
    | inl nothing ↦ rw (fine, nothing, write_full) refl
    | inr some_bytes ↦ elim (Bool-cases (ltb (length (x ∷ bytes)) w.count)) [
      | inl beyond ↦ rw (fine, some_bytes, beyond, write_full) refl
      | inr within ↦
          let part = take w.count (x ∷ bytes) in
          let behind = drop w.count (x ∷ bytes) in
          let later = write_full behind ws [] in
          let both = write_full-shift behind ws (sent ++ part) in
          let one = write_full-shift behind ws part in
          rw (fine, some_bytes, within, write_full)
            (both
              ∙ ap (λ y. (later.0, y, later.2)) (append_assoc sent part (later.1))
              ∙ sym (ap (λ v. (v.0, sent ++ v.1, v.2)) one))
    ]
  ]
]

-- A call of `Write` fails at some time.
abbrev pub FailsLater : List WriteResult → Type 0
FailsLater [] = ⊥
FailsLater (w ∷ ws) = (w.failure ≢ none) ⊎ FailsLater ws

-- Then the loop does not wait for ever, and where it succeeds a later call still fails.
abbrev pub Comes : Outcome IoError (Unit {0}) × Bytes × List WriteResult → Type 0
Comes (ok u, sent, plan) = FailsLater plan
Comes (err e, sent, plan) = Unit
Comes (panic, sent, plan) = Unit
Comes (stuck, sent, plan) = ⊥

pub write_full-Comes :
    (bytes : Bytes) (plan : List WriteResult) (sent : Bytes)
    → FailsLater plan
    → Comes (write_full bytes plan sent)
unfolding write_full
write_full-Comes [] plan sent h = h
write_full-Comes (x ∷ bytes) [] sent h = h
write_full-Comes (x ∷ bytes) (w ∷ ws) sent h = elim (Option-cases w.failure) [
  | inr (e, failed) ↦ rw (failed, write_full) tt
  | inl fine ↦ elim (Bool-cases (w.count == 0)) [
    | inl nothing ↦ rw (fine, nothing, write_full) tt
    | inr some_bytes ↦ elim (Bool-cases (ltb (length (x ∷ bytes)) w.count)) [
      | inl beyond ↦ rw (fine, some_bytes, beyond, write_full) tt
      | inr within ↦
          let later : FailsLater ws = elim h [
            | inl fails ↦ absurd (fails fine)
            | inr fails ↦ fails
          ] in
          rw (fine, some_bytes, within, write_full)
            (write_full-Comes (drop w.count (x ∷ bytes)) ws (sent ++ take w.count (x ∷ bytes))
              later)
    ]
  ]
]
