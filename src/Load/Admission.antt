-- ===== src/Load/Admission.antt =====
-- load/protection/connections/server/main.go, as a step relation: the accept loop and the handlers
-- take their atomic steps in any order. Handlers do not differ but in the point where they stand, so
-- the state has the number of them at each point.
pub mod Bounds
use go_network_lab.Base.{
  ℕ, suc, ◌+◌, ◌≤◌, ◌<◌, ◌≡◌, Bool, true, false, ltb, if◌then◌else◌, Option, none, some,
}

-- Where the accept loop stands: at `Accept` and `select`; behind the send to `slots`; behind
-- `active.Add(1)`; behind `admitted.Add(1)`, before `go`; in the branch `default`.
pub data LoopPoint : Type 0 where
  accepting slot_taken active_counted admitted_counted refusing : LoopPoint

-- `slots` is the length of the channel. A handler is running; it has closed the connection; it has
-- counted itself out of `active` and has its slot yet to give back.
pub record State : Type 0 where
  pub loop : LoopPoint
  pub slots : ℕ
  pub active : ℕ
  pub admitted : ℕ
  pub rejected : ℕ
  pub running : ℕ
  pub closing : ℕ
  pub releasing : ℕ

abbrev pub start : State
start = record {
  loop = accepting;
  slots = 0;
  active = 0;
  admitted = 0;
  rejected = 0;
  running = 0;
  closing = 0;
  releasing = 0;
}

-- `select` at an accepted connection, with a channel of capacity `maximum`.
unfoldable pub select_slot : ℕ → State → State
select_slot maximum s =
    if ltb s.slots maximum
    then record s { loop = slot_taken; slots = s.slots + 1 }
    else record s { loop = refusing }

-- The next atomic step of the accept loop; at `Accept` a connection has arrived.
unfoldable pub loop_from : LoopPoint → ℕ → State → State
loop_from accepting maximum s = select_slot maximum s
loop_from slot_taken maximum s = record s { loop = active_counted; active = s.active + 1 }
loop_from active_counted maximum s = record s { loop = admitted_counted; admitted = s.admitted + 1 }
loop_from admitted_counted maximum s = record s { loop = accepting; running = s.running + 1 }
loop_from refusing maximum s = record s { loop = accepting; rejected = s.rejected + 1 }

unfoldable pub loop_step : ℕ → State → State
loop_step maximum s = loop_from s.loop maximum s

-- One atomic step of the program.
pub data Step (maximum : ℕ) : State → State → Type 0 where
  loop_moves : (s : State) → Step maximum s (loop_step maximum s)
  -- A write or a read of the handler has failed, and `conn.Close()` has run.
  handler_closes :
      (s : State) (n : ℕ)
      → s.running ≡ suc n
      → Step maximum s (record s { running = n; closing = s.closing + 1 })
  -- `active.Add(-1)`, on a count that is not 0.
  handler_counts_out :
      (s : State) (n m : ℕ)
      → s.closing ≡ suc n
      → s.active ≡ suc m
      → Step maximum s (record s { closing = n; active = m; releasing = s.releasing + 1 })
  -- `<-slots`
  handler_releases :
      (s : State) (n m : ℕ)
      → s.releasing ≡ suc n
      → s.slots ≡ suc m
      → Step maximum s (record s { releasing = n; slots = m })

pub data Reachable (maximum : ℕ) : State → Type 0 where
  at_start : Reachable maximum start
  after : (s s' : State) → Reachable maximum s → Step maximum s s' → Reachable maximum s'
