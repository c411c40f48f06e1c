-- ===== src/Load/Clients/Accounts.antt =====
-- What the counters of the clients that measure mean.
use go_network_lab.Base.{
  ℕ, bytes_eq, codes, ◌+◌, ◌≤◌, ◌<◌, ◌≡◌, refl, sym, ap, ◌∙◌, ltb, ltb→lt, inl, inr, Bool-cases,
  List, [], ◌∷◌, ◌++◌, append-nil, append_assoc, length, All, ok, err, panic, stuck, arith,
}
use go_network_lab.Base.Io.{IoError}
use go_network_lab.Load.Clients.{
  ClientResult, no_result, Exchange, Effect, completes, rejects, errs, unfinishes, count_effect,
  Next, goes_on, stops, client_loop, connected, measure, latency, Done, with_round, proceed, Reply,
  replied, failed, judge_error, judge_reply, judge_work_reply, judge_queue, judge_work, is_done,
}

-- The latencies of the rounds that completed, in order.
abbrev latency_onto : Effect → Exchange → List ℕ → List ℕ
latency_onto completes r ls = latency r ∷ ls
latency_onto _ r ls = ls

unfoldable pub completed_latencies : (Exchange → Effect × Next) → List Exchange → List ℕ
completed_latencies judge [] = []
completed_latencies judge (r ∷ rs) = latency_onto ((judge r).0) r (completed_latencies judge rs)

-- A failure or a cutoff ends the loop.
abbrev pub Ends : Effect × Next → Type 0
Ends (completes, next) = Unit
Ends (rejects, next) = Unit
Ends (errs, next) = next ≡ stops
Ends (unfinishes, next) = next ≡ stops

-- What the counters say of the requests that were sent: each is counted once, at most one failed or
-- was cut off, the latencies are those of the ones that completed, and the loop entered each of their
-- rounds before the deadline.
abbrev pub Accounts : ℕ → (Exchange → Effect × Next) → ClientResult → List Exchange → Type 0
Accounts deadline judge c sent =
    (c.completed ≡ length c.latencies)
    × (c.completed + c.rejected + c.errors + c.unfinished ≡ length sent)
    × (c.errors + c.unfinished ≤ 1)
    × (c.latencies ≡ completed_latencies judge sent)
    × All (λ r. r.at_head < deadline) sent

-- What the loop has added to the counters `c`.
abbrev Grown : ℕ → (Exchange → Effect × Next) → ClientResult → Done → Type 0
Grown deadline judge c (ok c', sent) =
    (c'.completed ≡ c.completed + length (completed_latencies judge sent))
    × (c'.completed + c'.rejected + c'.errors + c'.unfinished
        ≡ c.completed + c.rejected + c.errors + c.unfinished + length sent)
    × (c'.errors + c'.unfinished ≤ c.errors + c.unfinished + 1)
    × (c'.latencies ≡ c.latencies ++ completed_latencies judge sent)
    × All (λ r. r.at_head < deadline) sent
Grown deadline judge c (err e, sent) = ⊥
Grown deadline judge c (panic, sent) = ⊥
Grown deadline judge c (stuck, sent) = All (λ r. r.at_head < deadline) sent

module _ (deadline : ℕ) (judge : Exchange → Effect × Next) where
  Grown-completes :
      (r : Exchange) (c : ClientResult) (rest : Done)
      → (judge r).0 ≡ completes
      → r.at_head < deadline
      → Grown deadline judge (count_effect completes r c) rest
      → Grown deadline judge c (with_round r rest)
  unfolding count_effect completed_latencies
  Grown-completes r c (ok c', sent) e t (a, b, d, l, s) = rw e (
    omega arith,
    omega arith,
    d,
    l ∙ append_assoc c.latencies (latency r ∷ []) (completed_latencies judge sent),
    (t, s),
  )
  Grown-completes r c (err x, sent) e t h = h
  Grown-completes r c (panic, sent) e t h = h
  Grown-completes r c (stuck, sent) e t h = (t, h)

  Grown-rejects :
      (r : Exchange) (c : ClientResult) (rest : Done)
      → (judge r).0 ≡ rejects
      → r.at_head < deadline
      → Grown deadline judge (count_effect rejects r c) rest
      → Grown deadline judge c (with_round r rest)
  unfolding count_effect completed_latencies
  Grown-rejects r c (ok c', sent) e t (a, b, d, l, s) =
      rw e (omega arith, omega arith, d, l, (t, s))
  Grown-rejects r c (err x, sent) e t h = h
  Grown-rejects r c (panic, sent) e t h = h
  Grown-rejects r c (stuck, sent) e t h = (t, h)

  -- The loop that ends with the round.
  Grown-stops :
      (effect : Effect) (r : Exchange) (c : ClientResult)
      → (judge r).0 ≡ effect
      → r.at_head < deadline
      → Grown deadline judge c (ok (count_effect effect r c), r ∷ [])
  unfolding count_effect completed_latencies
  Grown-stops completes r c e t = rw e (omega arith, omega arith, omega arith, refl, (t, tt))
  Grown-stops rejects r c e t =
      rw e (omega arith, omega arith, omega arith, sym (append-nil c.latencies), (t, tt))
  Grown-stops errs r c e t =
      rw e (omega arith, omega arith, omega arith, sym (append-nil c.latencies), (t, tt))
  Grown-stops unfinishes r c e t =
      rw e (omega arith, omega arith, omega arith, sym (append-nil c.latencies), (t, tt))

  Grown-round :
      (j : Effect × Next) (r : Exchange) (c : ClientResult) (rest : Done)
      → judge r ≡ j
      → Ends j
      → r.at_head < deadline
      → Grown deadline judge (count_effect (j.0) r c) rest
      → Grown deadline judge c (with_round r (proceed (j.1) (count_effect (j.0) r c) rest))
  Grown-round (e, stops) r c rest j h t g = Grown-stops e r c (ap (λ p. p.0) j) t
  Grown-round (completes, goes_on) r c rest j h t g = Grown-completes r c rest (ap (λ p. p.0) j) t g
  Grown-round (rejects, goes_on) r c rest j h t g = Grown-rejects r c rest (ap (λ p. p.0) j) t g
  Grown-round (errs, goes_on) r c rest j h t g = cc
  Grown-round (unfinishes, goes_on) r c rest j h t g = cc

  client_loop-Grown :
      ((r : Exchange) → Ends (judge r))
      → (rounds : List Exchange) (c : ClientResult)
      → Grown deadline judge c (client_loop deadline judge rounds c)
  unfolding client_loop completed_latencies
  client_loop-Grown ends [] c = tt
  client_loop-Grown ends (r ∷ rounds) c = elim (Bool-cases (ltb r.at_head deadline)) [
    | inl t ↦ rw t (
        Grown-round (judge r) r c _ refl (ends r) (ltb→lt r.at_head deadline t)
          (client_loop-Grown ends rounds (count_effect ((judge r).0) r c)))
    | inr f ↦ rw f (omega arith, omega arith, omega arith, sym (append-nil c.latencies), tt)
  ]

judge_error-Ends :
    (deadline : ℕ) (r : Exchange) (e : IoError) → Ends (judge_error deadline r e, stops)
judge_error-Ends deadline r e = either_way (judge_error deadline r e)
  where
    either_way : (effect : Effect) → Ends (effect, stops)
    either_way completes = tt
    either_way rejects = tt
    either_way errs = refl
    either_way unfinishes = refl

judge_reply-Ends :
    (deadline delay : ℕ) (r : Exchange) (reply : Reply) → Ends (judge_reply deadline delay r reply)
judge_reply-Ends deadline delay r (failed e) = judge_error-Ends deadline r e
judge_reply-Ends deadline delay r (replied s) = elim (Bool-cases (ltb r.responded deadline)) [
  | inr f ↦ rw f refl
  | inl t ↦ elim (Bool-cases (bytes_eq s (codes "BUSY\n"))) [
    | inl b ↦ rw (t, b) tt
    | inr b ↦ elim (Bool-cases (bytes_eq s (codes "DONE\n"))) [
      | inl d ↦ rw (t, b, d) tt
      | inr d ↦ rw (t, b, d) refl
    ]
  ]
]

judge_work_reply-Ends :
    (deadline : ℕ) (r : Exchange) (reply : Reply) → Ends (judge_work_reply deadline r reply)
judge_work_reply-Ends deadline r (failed e) = judge_error-Ends deadline r e
judge_work_reply-Ends deadline r (replied s) = elim (Bool-cases (is_done s)) [
  | inr f ↦ rw f refl
  | inl d ↦ elim (Bool-cases (ltb r.responded deadline)) [
    | inl t ↦ rw (d, t) tt
    | inr t ↦ rw (d, t) refl
  ]
]

-- What a client that was connected has counted when its loop ends; it neither fails nor panics.
abbrev pub Accounted : ℕ → (Exchange → Effect × Next) → Done → Type 0
Accounted deadline judge (ok c, sent) = Accounts deadline judge c sent
Accounted deadline judge (err e, sent) = ⊥
Accounted deadline judge (panic, sent) = ⊥
Accounted deadline judge (stuck, sent) = All (λ r. r.at_head < deadline) sent

Grown-Accounted :
    (deadline : ℕ) (judge : Exchange → Effect × Next) (done : Done)
    → Grown deadline judge no_result done
    → Accounted deadline judge done
Grown-Accounted deadline judge (ok c, sent) (a, b, d, l, s) =
    let n : length c.latencies ≡ length (completed_latencies judge sent) = ap length l in
    (omega arith, omega arith, omega arith, l, s)
Grown-Accounted deadline judge (err e, sent) h = h
Grown-Accounted deadline judge (panic, sent) h = h
Grown-Accounted deadline judge (stuck, sent) h = h

-- When the loop of a client of the queue, or of load/concurrency, ends, its counters count each
-- request that was sent once, at most one of them as failed or cut off; the latencies are those of
-- the requests that completed, as many as are counted; and at the head of each round that sent one the
-- clock was read before the deadline. When the rounds run out before the loop ends, the last holds.
pub measure-Accounted :
    (deadline delay : ℕ) (rounds : List Exchange)
    → Accounted deadline
        (judge_queue deadline delay)
        (measure deadline (judge_queue deadline delay) (connected rounds))
      × Accounted deadline
          (judge_work deadline)
          (measure deadline (judge_work deadline) (connected rounds))
unfolding measure judge_queue judge_work
measure-Accounted deadline delay rounds = (
  Grown-Accounted deadline _ _ (
      client_loop-Grown deadline (judge_queue deadline delay)
        (λ r. judge_reply-Ends deadline delay r r.outcome) rounds no_result),
  Grown-Accounted deadline _ _ (
      client_loop-Grown deadline (judge_work deadline)
        (λ r. judge_work_reply-Ends deadline r r.outcome) rounds no_result),
)
