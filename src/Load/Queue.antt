-- ===== src/Load/Queue.antt =====
-- load/backpressure/queue/server/main.go, as a step relation: the handlers and the worker take their
-- atomic steps in any order. A handler has one job at a time, so a job is the number of its handler.
pub mod Counters
pub mod Jobs
use go_network_lab.Base.{
  ℕ, suc, ◌+◌, ◌-◌, ◌≤◌, ◌<◌, ◌≡◌, Bool, true, false, ltb, ◌==◌, if◌then◌else◌, List, [], ◌∷◌, ◌++◌,
  length,
}

pub data Policy : Type 0 where
  block reject : Policy

-- Where a handler stands: at `ReadString`; behind `Accepted.Add(1)`; in the branch `default`; behind
-- `Waiting.Add(1)`, at the send; behind the send; behind `Waiting.Add(-1)`, at `Queued.Add(1)`; at
-- `<-job.Done`; returned.
pub data Point : Type 0 where
  reading received refused submitting delivered submitted awaiting returned : Point

-- At the receive; in the sleep; behind `Completed.Add(1)`, at `close(job.Done)`.
pub data Worker : Type 0 where
  idle : Worker
  processing counted : ℕ → Worker

-- `finished i` tells that the channel `Done` of the job of handler `i` is closed. The counters are for
-- the report only.
pub record State : Type 0 where
  pub point : ℕ → Point
  pub finished : ℕ → Bool
  pub queue : List ℕ
  pub worker : Worker
  pub accepted : ℕ
  pub queued : ℕ
  pub completed : ℕ
  pub waiting : ℕ
  pub rejected : ℕ

abbrev pub capacity : ℕ
capacity = 4

abbrev pub update : {A : Type 0} → ℕ → A → (ℕ → A) → ℕ → A
update i a f j = if j == i then a else f j

abbrev pub start : State
start = record {
  point = λ i. reading;
  finished = λ i. false;
  queue = [];
  worker = idle;
  accepted = 0;
  queued = 0;
  completed = 0;
  waiting = 0;
  rejected = 0;
}

-- Handler `i` goes to a point.
abbrev pub goes : ℕ → Point → State → State
goes i p s = record s { point = update i p s.point }

-- A request, which makes a job with a new channel `Done`.
unfoldable pub receive : ℕ → State → State
receive i s = record (goes i received s) {
  accepted = s.accepted + 1;
  finished = update i false s.finished;
}

-- `jobs <- job`
unfoldable pub send : ℕ → Point → State → State
send i p s = record (goes i p s) { queue = s.queue ++ i ∷ [] }

-- The submission by the policy `reject`: `select` with `default`.
unfoldable pub select_send : ℕ → State → State
unfolding send
select_send i s = if ltb (length s.queue) capacity then send i submitted s else goes i refused s

-- One atomic step of the program. The Boolean of a step that writes tells whether the write fails.
pub data Step (policy : Policy) : State → State → Type 0 where
  receives : (s : State) (i : ℕ) → s.point i ≡ reading → Step policy s (receive i s)
  gives_up : (s : State) (i : ℕ) → s.point i ≡ reading → Step policy s (goes i returned s)
  selects :
      (s : State) (i : ℕ) → policy ≡ reject → s.point i ≡ received → Step policy s (select_send i s)
  refuses :
      (s : State) (i : ℕ) (fails : Bool)
      → s.point i ≡ refused
      → Step policy s
          (record (goes i (if fails then returned else reading) s) { rejected = s.rejected + 1 })
  waits :
      (s : State) (i : ℕ)
      → policy ≡ block
      → s.point i ≡ received
      → Step policy s (record (goes i submitting s) { waiting = s.waiting + 1 })
  sends :
      (s : State) (i : ℕ)
      → s.point i ≡ submitting
      → length s.queue < capacity
      → Step policy s (send i delivered s)
  stops_waiting :
      (s : State) (i : ℕ)
      → s.point i ≡ delivered
      → Step policy s (record (goes i submitted s) { waiting = s.waiting - 1 })
  counts_queued :
      (s : State) (i : ℕ)
      → s.point i ≡ submitted
      → Step policy s (record (goes i awaiting s) { queued = s.queued + 1 })
  takes :
      (s : State) (i : ℕ) (rest : List ℕ)
      → s.worker ≡ idle
      → s.queue ≡ i ∷ rest
      → Step policy s (record s { worker = processing i; queue = rest })
  counts_completed :
      (s : State) (i : ℕ)
      → s.worker ≡ processing i
      → Step policy s (record s { worker = counted i; completed = s.completed + 1 })
  closes_done :
      (s : State) (i : ℕ)
      → s.worker ≡ counted i
      → Step policy s (record s { worker = idle; finished = update i true s.finished })
  answers :
      (s : State) (i : ℕ) (fails : Bool)
      → s.point i ≡ awaiting
      → s.finished i ≡ true
      → Step policy s (record (goes i (if fails then returned else reading) s) {
        finished = update i false s.finished;
      })

pub data Reachable (policy : Policy) : State → Type 0 where
  at_start : Reachable policy start
  after : (s s' : State) → Reachable policy s → Step policy s s' → Reachable policy s'
