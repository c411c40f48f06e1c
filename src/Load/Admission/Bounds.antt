-- ===== src/Load/Admission/Bounds.antt =====
-- How many connections there can be.
use go_network_lab.Base.{ℕ, ◌+◌, ◌≤◌, ◌<◌, ◌≡◌, ap, inl, inr, ltb, Bool-cases, arith}
use go_network_lab.Load.Admission.{
  LoopPoint, accepting, slot_taken, active_counted, admitted_counted, refusing, State, select_slot,
  loop_from, loop_step, Step, loop_moves, handler_closes, handler_counts_out, handler_releases,
  Reachable, at_start, after,
}

-- Whether the loop holds a slot, and whether it is counted as active.
abbrev slot_held : LoopPoint → ℕ
slot_held accepting = 0
slot_held refusing = 0
slot_held _ = 1

abbrev active_held : LoopPoint → ℕ
active_held active_counted = 1
active_held admitted_counted = 1
active_held _ = 0

active_held-slot_held : (p : LoopPoint) → active_held p ≤ slot_held p
active_held-slot_held accepting = omega arith
active_held-slot_held slot_taken = omega arith
active_held-slot_held active_counted = omega arith
active_held-slot_held admitted_counted = omega arith
active_held-slot_held refusing = omega arith

-- Each slot is held once, by the loop or by a handler, and likewise each count of `active`.
abbrev Balanced : ℕ → State → Type 0
Balanced maximum s =
    (s.slots ≡ slot_held s.loop + s.running + s.closing + s.releasing)
    × (s.active ≡ active_held s.loop + s.running + s.closing)
    × (s.slots ≤ maximum)

loop_from-Balanced :
    (p : LoopPoint) (maximum : ℕ) (s : State)
    → s.slots ≡ slot_held p + s.running + s.closing + s.releasing
    → s.active ≡ active_held p + s.running + s.closing
    → s.slots ≤ maximum
    → Balanced maximum (loop_from p maximum s)
unfolding loop_from select_slot
loop_from-Balanced accepting maximum s slots active bound =
    elim (Bool-cases (ltb s.slots maximum)) [
      | inl free ↦
          let less : s.slots < maximum = ground arith in
          rw (free, select_slot) (omega arith, omega arith, omega arith)
      | inr full ↦ rw (full, select_slot) (omega arith, omega arith, omega arith)
    ]
loop_from-Balanced slot_taken maximum s slots active bound = (omega arith, omega arith, omega arith)
loop_from-Balanced active_counted maximum s slots active bound =
    (omega arith, omega arith, omega arith)
loop_from-Balanced admitted_counted maximum s slots active bound =
    (omega arith, omega arith, omega arith)
loop_from-Balanced refusing maximum s slots active bound = (omega arith, omega arith, omega arith)

Step-Balanced :
    (maximum : ℕ) (s s' : State) → Step maximum s s' → Balanced maximum s → Balanced maximum s'
unfolding loop_step
Step-Balanced maximum _ _ (loop_moves s) (slots, active, bound) =
    loop_from-Balanced s.loop maximum s slots active bound
Step-Balanced maximum _ _ (handler_closes s n e) (slots, active, bound) =
    (omega arith, omega arith, omega arith)
Step-Balanced maximum _ _ (handler_counts_out s n m e f) (slots, active, bound) =
    (omega arith, omega arith, omega arith)
Step-Balanced maximum _ _ (handler_releases s n m e f) (slots, active, bound) =
    (omega arith, omega arith, omega arith)

Reachable-Balanced : (maximum : ℕ) (s : State) → Reachable maximum s → Balanced maximum s
Reachable-Balanced maximum _ at_start = (omega arith, omega arith, omega arith)
Reachable-Balanced maximum _ (after s s' reached step) =
    Step-Balanced maximum s s' step (Reachable-Balanced maximum s reached)

-- In any order of the steps of the accept loop and the handlers, at most `maximum` slots are taken
-- and at most as many handlers run; `active` is at most the slots taken; and the handlers that have
-- closed find `active` and the channel not empty, so that neither the count falls below 0 nor the
-- channel blocks them.
pub Reachable-bounds :
    (maximum : ℕ) (s : State)
    → Reachable maximum s
    → (s.slots ≤ maximum)
      × (s.running + s.closing + s.releasing ≤ s.slots)
      × (s.active ≤ s.slots)
      × (s.closing ≤ s.active)
      × (s.releasing ≤ s.slots)
Reachable-bounds maximum s reached =
    let (slots, active, bound) = Reachable-Balanced maximum s reached in
    let less = active_held-slot_held s.loop in
    (bound, omega arith, omega arith, omega arith, omega arith)

-- When every handler has gone and the loop is back at `Accept`, every slot is free again and no
-- connection is counted as active.
pub Reachable-all_free :
    (maximum : ℕ) (s : State)
    → Reachable maximum s
    → s.loop ≡ accepting
    → s.running + s.closing + s.releasing ≡ 0
    → (s.slots ≡ 0) × (s.active ≡ 0)
Reachable-all_free maximum s reached waiting gone =
    let (slots, active, bound) = Reachable-Balanced maximum s reached in
    let no_slot : slot_held s.loop ≡ 0 = ap slot_held waiting in
    let no_count : active_held s.loop ≡ 0 = ap active_held waiting in (omega arith, omega arith)
