-- ===== src/Load/Tests.antt =====
-- Tests of the load servers.
use go_network_lab.Base.{ℕ, suc, zero, ◌+◌, ◌≤◌, ◌≡◌, refl, arith}
use go_network_lab.Load.Queue
use go_network_lab.Load.Queue.Jobs.{one_if, occurrences, at_worker, under_way, Reachable-Placed}
use go_network_lab.Load.Queue.Counters.{pending, at_send, sum_below, Reachable-counters}
use go_network_lab.Load.Admission.{
  State, start, loop_step, loop_from, select_slot, loop_moves, handler_closes, handler_counts_out,
  handler_releases, Reachable, at_start, after,
}
use go_network_lab.Load.Admission.Bounds.{Reachable-bounds, Reachable-all_free}

-- Four steps of the loop admit the first connection, where one is allowed.
abbrev served_one : State
served_one = record start { slots = 1; active = 1; admitted = 1; running = 1 }

abbrev closed_one : State
closed_one = record served_one { running = 0; closing = 1 }

abbrev counted_out : State
counted_out = record closed_one { closing = 0; active = 0; releasing = 1 }

abbrev all_gone : State
all_gone = record counted_out { releasing = 0; slots = 0 }

served_one-Reachable : Reachable 1 served_one
unfolding loop_step loop_from select_slot
served_one-Reachable =
    let s1 = loop_step 1 start in
    let s2 = loop_step 1 s1 in
    let s3 = loop_step 1 s2 in
    after s3 served_one
      (after s2 s3 (after s1 s2 (after start s1 at_start (loop_moves start)) (loop_moves s1))
        (loop_moves s2))
      (loop_moves s3)

all_gone-Reachable : Reachable 1 all_gone
all_gone-Reachable =
    after counted_out all_gone
      (after closed_one counted_out
        (after served_one closed_one served_one-Reachable (handler_closes served_one 0 refl))
        (handler_counts_out closed_one 0 0 refl refl))
      (handler_releases counted_out 0 0 refl refl)

Reachable-bounds_example :
    (served_one.slots ≤ 1)
    × (served_one.running + served_one.closing + served_one.releasing ≤ served_one.slots)
    × (served_one.active ≤ served_one.slots)
    × (served_one.closing ≤ served_one.active)
    × (served_one.releasing ≤ served_one.slots)
Reachable-bounds_example = Reachable-bounds 1 served_one served_one-Reachable

Reachable-all_free_example : (all_gone.slots ≡ 0) × (all_gone.active ≡ 0)
Reachable-all_free_example = Reachable-all_free 1 all_gone all_gone-Reachable refl refl

-- Handler 0 has sent its job, and the worker has taken it.
abbrev received_job : Queue.State
received_job = Queue.receive 0 Queue.start

abbrev waiting_job : Queue.State
waiting_job = record (Queue.goes 0 Queue.submitting received_job) { waiting = 1 }

abbrev sent_job : Queue.State
sent_job = Queue.send 0 Queue.delivered waiting_job

sent_job-Reachable : Queue.Reachable Queue.block sent_job
unfolding go_network_lab.Load.Queue.receive go_network_lab.Load.Queue.send
sent_job-Reachable =
    Queue.after waiting_job sent_job
      (Queue.after received_job waiting_job
        (Queue.after Queue.start received_job Queue.at_start (Queue.receives Queue.start 0 refl))
        (Queue.waits received_job 0 refl refl))
      (Queue.sends waiting_job 0 refl (omega arith))

Reachable-Placed_example :
    occurrences 0 sent_job.queue + at_worker 0 sent_job.worker + one_if (sent_job.finished 0)
    ≡ under_way (sent_job.point 0)
Reachable-Placed_example = Reachable-Placed Queue.block sent_job sent_job-Reachable 0

beyond_sender : (i : ℕ) → 1 ≤ i → pending (sent_job.point i) ≡ 0
unfolding go_network_lab.Load.Queue.receive go_network_lab.Load.Queue.send
beyond_sender zero h = omega arith
beyond_sender (suc i) h = ground arith

-- One handler has counted its request, put its job into the queue, and still counts as waiting.
Reachable-counters_example :
    (sent_job.accepted
      ≡ sent_job.queued + sent_job.rejected + sum_below (λ j. pending (sent_job.point j)) 1)
    × (sent_job.waiting ≡ sum_below (λ j. at_send (sent_job.point j)) 1)
Reachable-counters_example =
    Reachable-counters Queue.block sent_job sent_job-Reachable 1 beyond_sender
