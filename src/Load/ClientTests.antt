-- ===== src/Load/ClientTests.antt =====
-- Tests of the clients that measure, and of the server of load/concurrency.
use go_network_lab.Base.{
  ℕ, ◌+◌, ◌≡◌, refl, true, List, [], ◌∷◌, Bytes, codes, bytes_eq, ok, arith, index,
}
use mathlib.Core.List.Perm
use go_network_lab.Base.Ints.{pos}
use go_network_lab.Base.Io.{net_error, eof}
use go_network_lab.Load.Latency.{Stats, latency_stats}
use go_network_lab.Load.Latency.Order.{sum}
use go_network_lab.Load.Latency.Ranks.{Summarises, latency_stats-Summarises, latency_stats-Perm}
use go_network_lab.Load.Clients.{
  ClientResult, no_result, Exchange, Reply, replied, failed, measure, judge_queue, judge_work,
  connected, total_loop, report,
}
use go_network_lab.Load.Clients.Accounts.{Accounted, measure-Accounted}
use go_network_lab.Load.Clients.Totals.{Reported, report-Reported, report-Perm}
use go_network_lab.Load.Clients.Waves.{
  WaveAttempt, undialled, unread, line, AddsUp, run_wave, run_wave-AddsUp,
}

abbrev samples : List ℕ
samples = 30 ∷ 10 ∷ 20 ∷ 50 ∷ []

-- Four samples in no order.
stats_of_samples :
    latency_stats {Err = ℕ} samples ≡ ok record { min = 10; avg = pos 27; p50 = 25; p95 = 50 }
unfolding latency_stats index
stats_of_samples = refl

latency_stats-Summarises_example :
    (s : Stats) × (latency_stats {Err = ℕ} samples ≡ ok s) × Summarises samples s
unfolding sum
latency_stats-Summarises_example =
    latency_stats-Summarises {Err = ℕ} 30 (10 ∷ 20 ∷ 50 ∷ []) (omega arith)

latency_stats-Perm_example :
    latency_stats {Err = ℕ} (30 ∷ 10 ∷ 20 ∷ []) ≡ latency_stats (10 ∷ 30 ∷ 20 ∷ [])
latency_stats-Perm_example =
    latency_stats-Perm {Err = ℕ} (30 ∷ 10 ∷ 20 ∷ []) (10 ∷ 30 ∷ 20 ∷ []) (Perm.swap 10 30 (20 ∷ []))

abbrev round : ℕ → Reply → Exchange
round at reply = record {
  at_head = at;
  started = at + 1;
  outcome = reply;
  responded = at + 4;
  resumed = at + 6;
}

-- A request that is done, one that is rejected, and one that the deadline cuts off.
abbrev rounds : List Exchange
rounds =
    round 0 (replied (codes "DONE\n"))
    ∷ round 10 (replied (codes "BUSY\n"))
    ∷ round 20 (failed (net_error true 0))
    ∷ []

measured : measure 22 (judge_queue 22 1) (connected rounds) ≡ (
  ok record {
    completed = 1;
    errors = 0;
    latencies = 3 ∷ [];
    unfinished = 1;
    rejected = 1;
    rejected_latency = 3;
  },
  rounds,
)
unfolding measure judge_queue bytes_eq
measured = refl

measure-Accounted_example :
    Accounted 22 (judge_queue 22 1) (measure 22 (judge_queue 22 1) (connected rounds))
    × Accounted 22 (judge_work 22) (measure 22 (judge_work 22) (connected rounds))
measure-Accounted_example = measure-Accounted 22 1 rounds

abbrev first_result : ClientResult
first_result = record no_result {
  completed = 2;
  latencies = 7 ∷ 5 ∷ [];
  rejected = 1;
  rejected_latency = 4;
}

abbrev second_result : ClientResult
second_result = record no_result { completed = 1; latencies = 6 ∷ []; errors = 1 }

report-Perm_example :
    report {Err = ℕ} (total_loop no_result (first_result ∷ second_result ∷ []))
    ≡ report (total_loop no_result (second_result ∷ first_result ∷ []))
report-Perm_example =
    report-Perm {Err = ℕ} (first_result ∷ second_result ∷ []) (second_result ∷ first_result ∷ [])
      (Perm.swap second_result first_result [])

report-Reported_example :
    Reported
      (total_loop no_result (first_result ∷ second_result ∷ []))
      (report {Err = ℕ} (total_loop no_result (first_result ∷ second_result ∷ [])))
unfolding total_loop sum
report-Reported_example =
    report-Reported {Err = ℕ} (first_result ∷ second_result ∷ []) (refl, (refl, tt)) (omega arith)

abbrev attempts : List WaveAttempt
attempts = line (codes "OK\n") ∷ undialled eof ∷ line (codes "BUSY\n") ∷ unread eof ∷ []

run_wave-AddsUp_example : AddsUp 6 attempts (run_wave 6 attempts)
run_wave-AddsUp_example = run_wave-AddsUp 6 attempts

-- A hash that is always the same.
abbrev same_hash : Bytes → Bytes
same_hash s =
    7 ∷ 7 ∷ 7 ∷ 7 ∷ 7 ∷ 7 ∷ 7 ∷ 7 ∷ 7 ∷ 7 ∷ 7 ∷ 7 ∷ 7 ∷ 7 ∷ 7 ∷ 7 ∷ 7 ∷ 7 ∷ 7 ∷ 7 ∷ 7 ∷ 7 ∷ 7 ∷ 7
    ∷ 7 ∷ 7 ∷ 7 ∷ 7 ∷ 7 ∷ 7 ∷ 7 ∷ 7 ∷ []
