-- ===== src/Base/Io.antt =====
-- What the programs use of packages io, net and context: the errors, a byte stream with
-- `io.ReadFull`, and the loop that writes until all is written.
pub mod Reading
pub mod Writing
use mathlib.Core.Path.{◌≡◌, refl, sym, ap, ◌∙◌}
use mathlib.Core.Bool.{Bool, true, false}
use mathlib.Core.List.{List, [], ◌∷◌, ◌++◌, append-nil, append_assoc}
use mathlib.Core.Logic.{◌⊎◌, inl, inr}
use mathlib.Core.Option.{Option, none, some}
use Prim.Native.Nat.{ℕ, zero, suc, ◌+◌, ◌-◌, ◌≤◌, ◌<◌}
use native.Mathlib.Omega.{arith}
use go_network_lab.Base.Tests.{Bytes, ◌==◌, leb, ltb, if◌then◌else◌, Bool-cases, null}
use go_network_lab.Base.Lists.{
  length, take, drop, length-append, length-drop, take-append-drop, take_all, take-append_le,
  drop-append_le, take-append_ge, drop-append_ge,
}
use go_network_lab.Base.Outcomes.{Outcome, ok, err, panic, stuck}

-- `net_error timeout n` is an error of the network with `Timeout() == timeout`.
pub data IoError : Type 0 where
  eof unexpected_eof short_write canceled deadline_exceeded : IoError
  net_error : Bool → ℕ → IoError

-- `errors.As(err, &netErr) && netErr.Timeout()`
abbrev pub is_timeout : IoError → Bool
is_timeout (net_error timeout n) = timeout
is_timeout deadline_exceeded = true
is_timeout _ = false

-- What a connection delivers: the bytes in the pieces in which they arrive, then an error, which is
-- `eof` when the peer has closed.
pub record Stream : Type 0 where
  pub chunks : List Bytes
  pub failure : IoError

-- The bytes with the boundaries of the pieces forgotten.
abbrev pub concat : List Bytes → Bytes
concat [] = []
concat (c ∷ cs) = c ++ concat cs

-- The error of `io.ReadFull` after the bytes `got`.
abbrev pub end_error : Bytes → IoError → IoError
end_error [] e = e
end_error (x ∷ got) eof = unexpected_eof
end_error (x ∷ got) e = e

-- The loop of `io.ReadFull`: `need` more bytes are wanted behind `got`.
unfoldable pub gather : ℕ → Bytes → List Bytes → IoError → Outcome IoError Bytes × List Bytes
gather zero got chunks e = (ok got, chunks)
gather (suc need) got [] e = (err (end_error got e), [])
gather (suc need) got (c ∷ cs) e =
    let rest = gather (suc need - length c) (got ++ c) cs e in
    if leb (suc need) (length c)
    then (ok (got ++ take (suc need) c), drop (suc need) c ∷ cs)
    else rest

-- `io.ReadFull(r, make([]byte, n))`
unfoldable pub read_full : ℕ → Stream → Outcome IoError Bytes × Stream
read_full n s = let (r, rest) = gather n [] s.chunks s.failure in (r, record s { chunks = rest })

-- What `Write` returns, call by call: how many bytes it took, and its error.
pub record WriteResult : Type 0 where
  pub count : ℕ
  pub failure : Option IoError

-- `for len(data) > 0 { n, err := w.Write(data); … data = data[n:] }` with the test for `n == 0`.
-- The result has the bytes sent, and the calls of `Write` that are left; when these run out the
-- writer blocks.
unfoldable pub write_full :
    Bytes → List WriteResult → Bytes → Outcome IoError (Unit {0}) × Bytes × List WriteResult
write_full [] plan sent = (ok tt, sent, plan)
write_full (x ∷ bytes) [] sent = (stuck, sent, [])
write_full (x ∷ bytes) (w ∷ ws) sent =
    let sent' = sent ++ take w.count (x ∷ bytes) in
    let rest = write_full (drop w.count (x ∷ bytes)) ws sent' in
    elim w.failure [
      | some e ↦ (err e, sent', ws)
      | none ↦
          if w.count == 0
          then (err short_write, sent', ws)
          else if ltb (length (x ∷ bytes)) w.count
          then (panic, sent', ws)
          else rest
    ]

-- `if _, err := io.ReadFull(…); err != nil { return …, w(err) }`, and what is done with the bytes.
abbrev pub then_read :
    {F B : Type 0}
    → (IoError → F)
    → Outcome IoError Bytes × Stream
    → (Bytes → Stream → Outcome F B × Stream)
    → Outcome F B × Stream
then_read w (ok bytes, s) k = k bytes s
then_read w (err e, s) k = (err (w e), s)
then_read w (panic, s) k = (panic, s)
then_read w (stuck, s) k = (stuck, s)
