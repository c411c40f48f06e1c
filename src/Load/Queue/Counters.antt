-- ===== src/Load/Queue/Counters.antt =====
-- The counters that load/backpressure/queue/server/main.go reports.
use go_network_lab.Base.{
  ℕ, zero, suc, ◌+◌, ◌-◌, ◌≤◌, ◌<◌, ◌≡◌, refl, ap, ◌∙◌, inl, inr, true, false, ltb, ◌==◌, ==_iff,
  Bool-cases, length, arith,
}
use go_network_lab.Load.Queue.{
  Policy, Point, reading, received, refused, submitting, delivered, submitted, awaiting, returned,
  State, capacity, update, receive, send, select_send, Step, receives, gives_up, selects, refuses,
  waits, sends, stops_waiting, counts_queued, takes, counts_completed, closes_done, answers,
  Reachable, at_start, after,
}

-- Whether a handler has counted its request as accepted, and not yet as queued or as rejected.
abbrev pub pending : Point → ℕ
pending received = 1
pending refused = 1
pending submitting = 1
pending delivered = 1
pending submitted = 1
pending _ = 0

-- Whether a handler is between `Waiting.Add(1)` and `Waiting.Add(-1)`.
abbrev pub at_send : Point → ℕ
at_send submitting = 1
at_send delivered = 1
at_send _ = 0

-- The sum over the handlers below a number.
abbrev pub sum_below : (ℕ → ℕ) → ℕ → ℕ
sum_below f zero = 0
sum_below f (suc n) = sum_below f n + f n

sum_below-widened :
    (f : ℕ → ℕ) (n : ℕ)
    → ((i : ℕ) → n ≤ i → f i ≡ 0)
    → (k : ℕ) → sum_below f (n + k) ≡ sum_below f n
sum_below-widened f n zeros zero = ap (sum_below f) (omega arith)
sum_below-widened f n zeros (suc k) =
    let out : n + suc k ≡ suc (n + k) = omega arith in
    ap (sum_below f) out ∙ omega (arith, sum_below-widened f n zeros k, zeros (n + k) (omega arith))

module _ (v : Point → ℕ) (i : ℕ) (p : Point) (f : ℕ → Point) where
  sum_below-other :
      (n : ℕ) → n ≤ i → sum_below (λ j. v (update i p f j)) n ≡ sum_below (λ j. v (f j)) n
  sum_below-other zero h = refl
  sum_below-other (suc n) h =
      let apart : (n == i) ≡ false = ground arith in
      rw apart (omega (arith, sum_below-other n (omega arith)))

  sum_below-update :
      (n : ℕ)
      → i < n
      → sum_below (λ j. v (update i p f j)) n + v (f i) ≡ sum_below (λ j. v (f j)) n + v p
  sum_below-update zero h = omega arith
  sum_below-update (suc n) h = elim (Bool-cases (n == i)) [
    | inl same ↦
        let here : v (f n) ≡ v (f i) = ap (λ k. v (f k)) ((==_iff n i).0 same) in
        let at : n ≡ i = (==_iff n i).0 same in
        rw same (omega (arith, here, sum_below-other n (omega arith)))
    | inr other ↦
        let less : i < n = ground arith in rw other (omega (arith, sum_below-update n less))
  ]

-- The handlers from `n` on have done nothing, and the counters agree with where the others stand.
abbrev Agree : (ℕ → Point) → ℕ → ℕ → ℕ → ℕ → ℕ → Type 0
Agree point accepted queued rejected waiting n =
    ((i : ℕ) → n ≤ i → point i ≡ reading)
    × (accepted ≡ queued + rejected + sum_below (λ j. pending (point j)) n)
    × (waiting ≡ sum_below (λ j. at_send (point j)) n)

abbrev Counted : State → ℕ → Type 0
Counted s n = Agree s.point s.accepted s.queued s.rejected s.waiting n

Counted-widened : (s : State) (n k : ℕ) → Counted s n → Counted s (n + k)
Counted-widened s n k (still, sums, sent) = (
  λ i le. still i (omega arith),
  omega (
    arith,
    sums,
    sum_below-widened (λ j. pending (s.point j)) n (λ i le. ap pending (still i le)) k,
  ),
  omega (
    arith,
    sent,
    sum_below-widened (λ j. at_send (s.point j)) n (λ i le. ap at_send (still i le)) k,
  ),
)

-- A step of handler `i` that moves it to `p`, with the counters that it changes.
moves :
    (s : State) (i : ℕ) (p old : Point) (accepted queued rejected waiting : ℕ)
    → s.point i ≡ old
    → accepted + s.queued + s.rejected + pending old ≡ s.accepted + queued + rejected + pending p
    → (at_send old ≤ s.waiting → waiting + at_send old ≡ s.waiting + at_send p)
    → (n : ℕ) × Counted s n
    → (n : ℕ) × Agree (update i p s.point) accepted queued rejected waiting n
moves s i p old accepted queued rejected waiting at counts sending (n, counted) =
    let (still, sums, sent) = Counted-widened s n (suc i) counted in
    let old_sent : at_send old ≤ s.waiting = omega (
      arith,
      sent,
      ap at_send at,
      sum_below-update at_send i reading s.point (n + suc i) (omega arith),
    ) in
    (
      n + suc i,
      (
        λ j le. let apart : (j == i) ≡ false = ground arith in rw apart (still j le),
        omega (
          arith,
          counts,
          sums,
          ap pending at,
          sum_below-update pending i p s.point (n + suc i) (omega arith),
        ),
        omega (
          arith,
          sending old_sent,
          sent,
          ap at_send at,
          sum_below-update at_send i p s.point (n + suc i) (omega arith),
        ),
      ),
    )

Step-Counted :
    (policy : Policy) (s s' : State)
    → Step policy s s'
    → (n : ℕ) × Counted s n
    → (n : ℕ) × Counted s' n
unfolding receive send select_send
Step-Counted policy _ _ (receives s i at) h =
    moves s i received reading (s.accepted + 1) s.queued s.rejected s.waiting at (omega arith)
      (λ le. omega arith) h
Step-Counted policy _ _ (gives_up s i at) h =
    moves s i returned reading s.accepted s.queued s.rejected s.waiting at (omega arith)
      (λ le. omega arith) h
Step-Counted policy _ _ (selects s i p at) h = elim (Bool-cases (ltb (length s.queue) capacity)) [
  | inl free ↦
      rw (free, select_send)
        (moves s i submitted received s.accepted s.queued s.rejected s.waiting at (omega arith)
          (λ le. omega arith) h)
  | inr full ↦
      rw (full, select_send)
        (moves s i refused received s.accepted s.queued s.rejected s.waiting at (omega arith)
          (λ le. omega arith) h)
]
Step-Counted policy _ _ (refuses s i true at) h =
    moves s i returned refused s.accepted s.queued (s.rejected + 1) s.waiting at (omega arith)
      (λ le. omega arith) h
Step-Counted policy _ _ (refuses s i false at) h =
    moves s i reading refused s.accepted s.queued (s.rejected + 1) s.waiting at (omega arith)
      (λ le. omega arith) h
Step-Counted policy _ _ (waits s i p at) h =
    moves s i submitting received s.accepted s.queued s.rejected (s.waiting + 1) at (omega arith)
      (λ le. omega arith) h
Step-Counted policy _ _ (sends s i at free) h =
    moves s i delivered submitting s.accepted s.queued s.rejected s.waiting at (omega arith)
      (λ le. omega arith) h
Step-Counted policy _ _ (stops_waiting s i at) h =
    moves s i submitted delivered s.accepted s.queued s.rejected (s.waiting - 1) at (omega arith)
      (λ le. omega (arith, le)) h
Step-Counted policy _ _ (counts_queued s i at) h =
    moves s i awaiting submitted s.accepted (s.queued + 1) s.rejected s.waiting at (omega arith)
      (λ le. omega arith) h
Step-Counted policy _ _ (takes s i rest w q) h = h
Step-Counted policy _ _ (counts_completed s i w) h = h
Step-Counted policy _ _ (closes_done s i w) h = h
Step-Counted policy _ _ (answers s i true at closed) h =
    moves s i returned awaiting s.accepted s.queued s.rejected s.waiting at (omega arith)
      (λ le. omega arith) h
Step-Counted policy _ _ (answers s i false at closed) h =
    moves s i reading awaiting s.accepted s.queued s.rejected s.waiting at (omega arith)
      (λ le. omega arith) h

Reachable-Counted : (policy : Policy) (s : State) → Reachable policy s → (n : ℕ) × Counted s n
Reachable-Counted policy _ at_start = (0, (λ i le. refl, omega arith, omega arith))
Reachable-Counted policy _ (after s s' reached step) =
    Step-Counted policy s s' step (Reachable-Counted policy s reached)

-- In two sums that leave out only zeros the same is left.
sum_below-agree :
    (f : ℕ → ℕ) (m n : ℕ)
    → ((i : ℕ) → m ≤ i → f i ≡ 0)
    → ((i : ℕ) → n ≤ i → f i ≡ 0)
    → sum_below f m ≡ sum_below f n
sum_below-agree f m n beyond_m beyond_n =
    let swapped : sum_below f (m + n) ≡ sum_below f (n + m) = ap (sum_below f) (omega arith) in
    omega (arith, swapped, sum_below-widened f m beyond_m n, sum_below-widened f n beyond_n m)

at_send-zero : (p : Point) → pending p ≡ 0 → at_send p ≡ 0
at_send-zero reading h = refl
at_send-zero received h = refl
at_send-zero refused h = refl
at_send-zero submitting h = omega (arith, h)
at_send-zero delivered h = omega (arith, h)
at_send-zero submitted h = refl
at_send-zero awaiting h = refl
at_send-zero returned h = refl

-- The counters add up, in any order of the steps: where no handler from `n` on has a request that is
-- counted as accepted and as nothing else yet, the requests accepted are those queued, those rejected,
-- and one for each handler below `n` that has such a request; and the counter of those that wait is
-- the number of the handlers below `n` that are at the send or just behind it.
pub Reachable-counters :
    (policy : Policy) (s : State)
    → Reachable policy s
    → (n : ℕ) → ((i : ℕ) → n ≤ i → pending (s.point i) ≡ 0)
    → (s.accepted ≡ s.queued + s.rejected + sum_below (λ j. pending (s.point j)) n)
      × (s.waiting ≡ sum_below (λ j. at_send (s.point j)) n)
Reachable-counters policy s reached n beyond =
    let (m, (still, sums, sent)) = Reachable-Counted policy s reached in
    (
      omega (
        arith,
        sums,
        sum_below-agree (λ j. pending (s.point j)) m n (λ i le. ap pending (still i le)) beyond,
      ),
      omega (
        arith,
        sent,
        sum_below-agree (λ j. at_send (s.point j)) m n (λ i le. ap at_send (still i le))
            (λ i le. at_send-zero (s.point i) (beyond i le)),
      ),
    )
