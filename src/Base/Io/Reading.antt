-- ===== src/Base/Io/Reading.antt =====
-- `io.ReadFull` does not see how a stream is cut into pieces.
use mathlib.Core.Path.{◌≡◌, refl, sym, ◌∙◌}
use mathlib.Core.Bool.{false}
use mathlib.Core.List.{List, [], ◌∷◌, ◌++◌, append-nil, append_assoc}
use mathlib.Core.Logic.{inl, inr}
use Prim.Native.Nat.{ℕ, zero, suc, ◌-◌, ◌≤◌, ◌<◌}
use native.Mathlib.Omega.{arith}
use go_network_lab.Base.Tests.{Bytes, leb, Bool-cases}
use go_network_lab.Base.Lists.{
  length, take, drop, length-append, take-append_le, drop-append_le, take-append_ge, drop-append_ge,
}
use go_network_lab.Base.Outcomes.{ok, err}
use go_network_lab.Base.Io.{IoError, Stream, concat, end_error, gather, read_full}

-- The bytes that a stream will deliver.
abbrev pub to_come : Stream → Bytes
to_come s = concat s.chunks

gather_enough :
    (need : ℕ) (got : Bytes) (chunks : List Bytes) (e : IoError)
    → need ≤ length (concat chunks)
    → (rest : List Bytes) × (gather need got chunks e
        ≡ (ok (got ++ take need (concat chunks)), rest))
      × (concat rest ≡ drop need (concat chunks))
unfolding gather
gather_enough zero got chunks e h = (chunks, rw append-nil, refl)
gather_enough (suc need) got [] e h = absurd (omega arith)
gather_enough (suc need) got (c ∷ cs) e h = elim (Bool-cases (leb (suc need) (length c))) [
  | inl within ↦
      let le : suc need ≤ length c = ground arith in
      (
        drop (suc need) c ∷ cs,
        rw (within, take-append_le (suc need) c (concat cs) le),
        sym (drop-append_le (suc need) c (concat cs) le),
      )
  | inr beyond ↦
      let ge : length c ≤ suc need = ground arith in
      let (rest, read, left) =
        gather_enough (suc need - length c) (got ++ c) cs e
          (omega (arith, length-append {0} c (concat cs))) in
      (
        rest,
        rw (beyond, take-append_ge (suc need) c (concat cs) ge)
            (read ∙ rw (append_assoc got c (take (suc need - length c) (concat cs)))),
        left ∙ sym (drop-append_ge (suc need) c (concat cs) ge),
      )
]

gather_short :
    (need : ℕ) (got : Bytes) (chunks : List Bytes) (e : IoError)
    → length (concat chunks) < need
    → gather need got chunks e ≡ (err (end_error (got ++ concat chunks) e), [])
unfolding gather
gather_short zero got chunks e h = elim h [ ]
gather_short (suc need) got [] e h = rw append-nil
gather_short (suc need) got (c ∷ cs) e h =
    let size = length-append {0} c (concat cs) in
    let beyond : leb (suc need) (length c) ≡ false = ground arith in
    rw beyond (
      gather_short (suc need - length c) (got ++ c) cs e (omega arith)
      ∙ rw (append_assoc got c (concat cs)))

module _ (n : ℕ) (s : Stream) where
  -- If the stream has enough bytes, the call returns the first `n` and leaves the others.
  pub read_full_enough :
      n ≤ length (to_come s)
      → (s' : Stream) × (read_full n s ≡ (ok (take n (to_come s)), s'))
        × (to_come s' ≡ drop n (to_come s))
        × (s'.failure ≡ s.failure)
  unfolding read_full
  read_full_enough h =
      let (rest, read, left) = gather_enough n [] s.chunks s.failure h in
      (record s { chunks = rest }, rw read, left, refl)

  -- If it has not, the call fails: `io.EOF` before any byte turns into `io.ErrUnexpectedEOF` after.
  pub read_full_short :
      length (to_come s) < n
      → read_full n s ≡ (err (end_error (to_come s) s.failure), record s { chunks = [] })
  unfolding read_full
  read_full_short h = rw (gather_short n [] s.chunks s.failure h)
