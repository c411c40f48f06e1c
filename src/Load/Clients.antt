-- ===== src/Load/Clients.antt =====
-- The clients that measure: the loops and the reports of load/backpressure/queue/client/main.go and
-- of load/concurrency/client/main.go.
pub mod Accounts
pub mod Totals
pub mod Waves
use go_network_lab.Base.{
  ℕ, zero, suc, ◌+◌, ◌-◌, ◌/◌, ◌%◌, ◌^◌, Bool, true, false, not, ◌&&◌, ◌||◌, ltb, leb, ◌==◌,
  if◌then◌else◌, List, [], ◌∷◌, ◌++◌, Bytes, codes, bytes_eq, length, take, drop, null, Option,
  none, some, Outcome, ok, err, panic, stuck, ◌>>=◌,
}
use go_network_lab.Base.Ints.{ℤ}
use go_network_lab.Base.Io.{IoError, is_timeout}
use go_network_lab.Load.Latency.{Stats, latency_stats, quotient}

-- The counters of one client. `rejected_latency` is a sum, by its bit pattern of an `int64`; the
-- client of load/concurrency has no rejections.
pub record ClientResult : Type 0 where
  pub completed : ℕ
  pub errors : ℕ
  pub latencies : List ℕ
  pub unfinished : ℕ
  pub rejected : ℕ
  pub rejected_latency : ℕ

abbrev pub no_result : ClientResult
no_result = record {
  completed = 0;
  errors = 0;
  latencies = [];
  unfinished = 0;
  rejected = 0;
  rejected_latency = 0;
}

pub data Reply : Type 0 where
  replied : Bytes → Reply
  failed : IoError → Reply

-- One round of the loop: the readings of the clock at its head, before the request, behind the reply
-- and behind a rejection, and the outcome of the write and the read.
pub record Exchange : Type 0 where
  pub at_head : ℕ
  pub started : ℕ
  pub outcome : Reply
  pub responded : ℕ
  pub resumed : ℕ

-- The clock is monotonic, so the difference is not negative.
abbrev pub latency : Exchange → ℕ
latency r = r.responded - r.started

-- What a round adds to the counters.
pub data Effect : Type 0 where
  completes rejects errs unfinishes : Effect

unfoldable pub count_effect : Effect → Exchange → ClientResult → ClientResult
count_effect completes r c = record c {
  completed = c.completed + 1;
  latencies = c.latencies ++ latency r ∷ [];
}
count_effect rejects r c = record c {
  rejected = c.rejected + 1;
  rejected_latency = (c.rejected_latency + latency r) % 2 ^ 64;
}
count_effect errs r c = record c { errors = c.errors + 1 }
count_effect unfinishes r c = record c { unfinished = c.unfinished + 1 }

-- What follows a round: `continue`, or the end of the loop.
pub data Next : Type 0 where
  goes_on stops : Next

-- A failed write or read: the shared cutoff is not a failure of the request.
abbrev pub judge_error : ℕ → Exchange → IoError → Effect
judge_error deadline r e =
    if is_timeout e && not (ltb r.responded deadline) then unfinishes else errs

-- The branches behind the exchange in the client of the queue.
abbrev pub judge_reply : ℕ → ℕ → Exchange → Reply → Effect × Next
judge_reply deadline delay r (failed e) = (judge_error deadline r e, stops)
judge_reply deadline delay r (replied response) =
    if not (ltb r.responded deadline)
    then (unfinishes, stops)
    else if bytes_eq response (codes "BUSY\n")
    then (rejects, if ltb 0 delay && not (ltb r.resumed deadline) then stops else goes_on)
    else if not (bytes_eq response (codes "DONE\n"))
    then (errs, stops)
    else (completes, goes_on)

unfoldable pub judge_queue : ℕ → ℕ → Exchange → Effect × Next
judge_queue deadline delay r = judge_reply deadline delay r r.outcome

-- A digit that `hex.DecodeString` takes.
abbrev pub is_hex_digit : ℕ → Bool
is_hex_digit c = leb 48 c && leb c 57 || leb 65 c && leb c 70 || leb 97 c && leb c 102

abbrev pub all_hex : Bytes → Bool
all_hex [] = true
all_hex (c ∷ cs) = is_hex_digit c && all_hex cs

-- `hex.DecodeString(s)` succeeds.
abbrev pub is_hex_text : Bytes → Bool
is_hex_text s = length s % 2 == 0 && all_hex s

-- The tests of a response to WORK; the bounds of the slice `response[5:13]` are within its length.
unfoldable pub is_done : Bytes → Bool
is_done response =
    if not (bytes_eq (take 5 response) (codes "DONE ")) || not (length response == 14)
    then false
    else is_hex_text (take (13 - 5) (drop 5 response))

-- The branches behind the exchange in the client of load/concurrency.
abbrev pub judge_work_reply : ℕ → Exchange → Reply → Effect × Next
judge_work_reply deadline r (failed e) = (judge_error deadline r e, stops)
judge_work_reply deadline r (replied response) =
    if not (is_done response)
    then (errs, stops)
    else if not (ltb r.responded deadline)
    then (unfinishes, stops)
    else (completes, goes_on)

unfoldable pub judge_work : ℕ → Exchange → Effect × Next
unfolding is_done
judge_work deadline r = judge_work_reply deadline r r.outcome

-- What the loop of a client has done: its counters, and the rounds in which it sent a request.
abbrev pub Done : Type 0
Done = Outcome IoError ClientResult × List Exchange

abbrev pub with_round : Exchange → Done → Done
with_round r (result, sent) = (result, r ∷ sent)

abbrev pub proceed : Next → ClientResult → Done → Done
proceed goes_on c rest = rest
proceed stops c rest = (ok c, [])

-- `for time.Now().Before(deadline)`, where `judge` says what a round does; when the rounds run out the
-- client is still at work.
unfoldable pub client_loop : ℕ → (Exchange → Effect × Next) → List Exchange → ClientResult → Done
unfolding count_effect
client_loop deadline judge [] c = (stuck, [])
client_loop deadline judge (r ∷ rounds) c =
    let c' = count_effect ((judge r).0) r c in
    let rest = client_loop deadline judge rounds c' in
    if ltb r.at_head deadline then with_round r (proceed ((judge r).1) c' rest) else (ok c, [])

-- What a client finds before the loop: that it cannot dial or set the deadline, or the rounds.
pub data Setup : Type 0 where
  dial_fails deadline_fails : Setup
  connected : List Exchange → Setup

unfoldable pub measure : ℕ → (Exchange → Effect × Next) → Setup → Done
unfolding client_loop
measure deadline judge dial_fails = (ok (record no_result { errors = 1 }), [])
measure deadline judge deadline_fails = (ok (record no_result { errors = 1 }), [])
measure deadline judge (connected rounds) = client_loop deadline judge rounds no_result

-- The loop of main that adds the results up.
unfoldable pub add_result : ClientResult → ClientResult → ClientResult
add_result total result = record {
  completed = total.completed + result.completed;
  errors = total.errors + result.errors;
  latencies = total.latencies ++ result.latencies;
  unfinished = total.unfinished + result.unfinished;
  rejected = total.rejected + result.rejected;
  rejected_latency = (total.rejected_latency + result.rejected_latency) % 2 ^ 64;
}

unfoldable pub total_loop : ClientResult → List ClientResult → ClientResult
unfolding add_result
total_loop total [] = total
total_loop total (result ∷ results) = total_loop (add_result total result) results

-- What main prints: the counters, the average latency of the rejections, and the statistics, where
-- there is something to divide by.
pub record Report : Type 0 where
  pub completed_total : ℕ
  pub errors_total : ℕ
  pub rejected_total : ℕ
  pub rejection_latency : Option ℤ
  pub unfinished_total : ℕ
  pub stats : Option Stats

abbrev pub average_rejection : ℕ → ℕ → Option ℤ
average_rejection n total = if ltb 0 n then some (quotient total n) else none

abbrev pub stats_of : {Err : Type 0} → List ℕ → Outcome Err (Option Stats)
stats_of [] = ok none
stats_of (x ∷ xs) = latency_stats (x ∷ xs) >>= λ s. ok (some s)

unfoldable pub report : {Err : Type 0} → ClientResult → Outcome Err Report
report total = stats_of total.latencies >>= λ s. ok record {
  completed_total = total.completed;
  errors_total = total.errors;
  rejected_total = total.rejected;
  rejection_latency = average_rejection total.rejected total.rejected_latency;
  unfinished_total = total.unfinished;
  stats = s;
}
