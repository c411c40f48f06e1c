-- ===== src/Load/Queue/Jobs.antt =====
-- The jobs of load/backpressure/queue/server/main.go, and its queue.
use go_network_lab.Base.{
  ℕ, ◌+◌, ◌*◌, ◌≤◌, ◌<◌, ◌≡◌, refl, ap, ◌∙◌, inl, inr, Bool, true, false, ltb, ◌==◌, ==_iff,
  if◌then◌else◌, Bool-cases, List, [], ◌∷◌, ◌++◌, length, length-append, arith,
}
use go_network_lab.Load.Queue.{
  Policy, Point, reading, received, refused, submitting, delivered, submitted, awaiting, returned,
  Worker, idle, processing, counted, State, capacity, update, receive, send, select_send, Step,
  receives, gives_up, selects, refuses, waits, sends, stops_waiting, counts_queued, takes,
  counts_completed, closes_done, answers, Reachable, at_start, after,
}

-- 1 for true, 0 for false.
abbrev pub one_if : Bool → ℕ
one_if true = 1
one_if false = 0

-- How often a job is in the queue.
abbrev pub occurrences : ℕ → List ℕ → ℕ
occurrences j [] = 0
occurrences j (i ∷ q) = one_if (j == i) + occurrences j q

abbrev pub at_worker : ℕ → Worker → ℕ
at_worker j idle = 0
at_worker j (processing i) = one_if (j == i)
at_worker j (counted i) = one_if (j == i)

-- Whether a handler has a job under way.
abbrev pub under_way : Point → ℕ
under_way delivered = 1
under_way submitted = 1
under_way awaiting = 1
under_way _ = 0

occurrences-append :
    (j i : ℕ) (q : List ℕ) → occurrences j (q ++ i ∷ []) ≡ occurrences j q + one_if (j == i)
occurrences-append j i [] = omega arith
occurrences-append j i (k ∷ q) = omega (arith, occurrences-append j i q)

-- The job of a handler that has one under way is at one place: in the queue, at the worker, or done.
abbrev Placed : State → ℕ → Type 0
Placed s j =
    occurrences j s.queue + at_worker j s.worker + one_if (s.finished j) ≡ under_way (s.point j)

under_way_le : (p : Point) → under_way p ≤ 1
under_way_le reading = omega arith
under_way_le received = omega arith
under_way_le refused = omega arith
under_way_le submitting = omega arith
under_way_le delivered = omega arith
under_way_le submitted = omega arith
under_way_le awaiting = omega arith
under_way_le returned = omega arith

not_under_way : (fails : Bool) → under_way (if fails then returned else reading) ≡ 0
not_under_way true = refl
not_under_way false = refl

-- How an update at `i` changes a measure at `j`.
update-sum :
    {A : Type 0} (v : A → ℕ) (i j : ℕ) (a : A) (f : ℕ → A) (m n : ℕ)
    → v (f i) ≡ m
    → v a ≡ n
    → v (update i a f j) + m * one_if (j == i) ≡ v (f j) + n * one_if (j == i)
update-sum v i j a f m n old new = elim (Bool-cases (j == i)) [
  | inl same ↦
      let here : v (f j) ≡ m = ap (λ k. v (f k)) ((==_iff j i).0 same) ∙ old in
      rw same (omega (arith, here, new))
  | inr other ↦ rw other (omega arith)
]

Step-Placed :
    (policy : Policy) (s s' : State)
    → Step policy s s'
    → ((j : ℕ) → Placed s j)
    → (j : ℕ) → Placed s' j
unfolding receive send select_send
Step-Placed policy _ _ (receives s i at) placed j =
    let none_done : one_if (s.finished i) ≡ 0 = omega (arith, placed i, ap under_way at) in
    omega (
      arith,
      placed j,
      update-sum under_way i j received s.point 0 0 (ap under_way at) refl,
      update-sum one_if i j false s.finished 0 0 none_done refl,
    )
Step-Placed policy _ _ (gives_up s i at) placed j =
    omega (arith, placed j, update-sum under_way i j returned s.point 0 0 (ap under_way at) refl)
Step-Placed policy _ _ (selects s i p at) placed j =
    elim (Bool-cases (ltb (length s.queue) capacity)) [
      | inl free ↦
          rw (free, select_send)
            (omega (
              arith,
              placed j,
              occurrences-append j i s.queue,
              update-sum under_way i j submitted s.point 0 1 (ap under_way at) refl,
            ))
      | inr full ↦
          rw (full, select_send)
            (omega (
              arith,
              placed j,
              update-sum under_way i j refused s.point 0 0 (ap under_way at) refl,
            ))
    ]
Step-Placed policy _ _ (refuses s i fails at) placed j = omega (
  arith,
  placed j,
  update-sum under_way i j (if fails then returned else reading) s.point 0 0 (ap under_way at)
      (not_under_way fails),
)
Step-Placed policy _ _ (waits s i p at) placed j =
    omega (arith, placed j, update-sum under_way i j submitting s.point 0 0 (ap under_way at) refl)
Step-Placed policy _ _ (sends s i at free) placed j = omega (
  arith,
  placed j,
  occurrences-append j i s.queue,
  update-sum under_way i j delivered s.point 0 1 (ap under_way at) refl,
)
Step-Placed policy _ _ (stops_waiting s i at) placed j =
    omega (arith, placed j, update-sum under_way i j submitted s.point 1 1 (ap under_way at) refl)
Step-Placed policy _ _ (counts_queued s i at) placed j =
    omega (arith, placed j, update-sum under_way i j awaiting s.point 1 1 (ap under_way at) refl)
Step-Placed policy _ _ (takes s i rest w q) placed j =
    omega (arith, placed j, ap (occurrences j) q, ap (at_worker j) w)
Step-Placed policy _ _ (counts_completed s i w) placed j =
    omega (arith, placed j, ap (at_worker j) w)
Step-Placed policy _ _ (closes_done s i w) placed j =
    let here : (i == i) ≡ true = ground arith in
    let busy : at_worker i s.worker ≡ 1 = ap (at_worker i) w ∙ ap one_if here in
    let none_done : one_if (s.finished i) ≡ 0 =
      omega (arith, placed i, busy, under_way_le (s.point i)) in
    omega (
      arith,
      placed j,
      ap (at_worker j) w,
      update-sum one_if i j true s.finished 0 1 none_done refl,
    )
Step-Placed policy _ _ (answers s i fails at done) placed j = omega (
  arith,
  placed j,
  update-sum under_way i j (if fails then returned else reading) s.point 1 0 (ap under_way at)
      (not_under_way fails),
  update-sum one_if i j false s.finished 1 0 (ap one_if done) refl,
)

-- No job is lost or doubled, in any order of the steps: the job of a handler that has one under way
-- is exactly once in the queue, at the worker or finished, and no other handler has one there.
pub Reachable-Placed :
    (policy : Policy) (s : State)
    → Reachable policy s
    → (j : ℕ)
    → occurrences j s.queue + at_worker j s.worker + one_if (s.finished j) ≡ under_way (s.point j)
Reachable-Placed policy _ at_start j = omega arith
Reachable-Placed policy _ (after s s' reached step) j =
    Step-Placed policy s s' step (Reachable-Placed policy s reached) j

Step-bound :
    (policy : Policy) (s s' : State)
    → Step policy s s'
    → length s.queue ≤ capacity
    → length s'.queue ≤ capacity
unfolding receive send select_send
Step-bound policy _ _ (receives s i at) h = h
Step-bound policy _ _ (gives_up s i at) h = h
Step-bound policy _ _ (selects s i p at) h = elim (Bool-cases (ltb (length s.queue) capacity)) [
  | inl free ↦
      let less : length s.queue < capacity = ground arith in
      rw (free, select_send) (omega (arith, length-append {0} s.queue (i ∷ [])))
  | inr full ↦ rw (full, select_send) h
]
Step-bound policy _ _ (refuses s i fails at) h = h
Step-bound policy _ _ (waits s i p at) h = h
Step-bound policy _ _ (sends s i at free) h = omega (arith, length-append {0} s.queue (i ∷ []))
Step-bound policy _ _ (stops_waiting s i at) h = h
Step-bound policy _ _ (counts_queued s i at) h = h
Step-bound policy _ _ (takes s i rest w q) h = omega (arith, ap length q)
Step-bound policy _ _ (counts_completed s i w) h = h
Step-bound policy _ _ (closes_done s i w) h = h
Step-bound policy _ _ (answers s i fails at done) h = h

-- The queue never holds more than four jobs.
Reachable-queue_bound :
    (policy : Policy) (s : State) → Reachable policy s → length s.queue ≤ capacity
Reachable-queue_bound policy _ at_start = omega arith
Reachable-queue_bound policy _ (after s s' reached step) =
    Step-bound policy s s' step (Reachable-queue_bound policy s reached)
