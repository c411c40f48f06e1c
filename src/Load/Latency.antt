-- ===== src/Load/Latency.antt =====
-- `latencyStats` of load/backpressure/queue/client/main.go, which load/concurrency/client/main.go
-- repeats word for word. A duration is the difference of two readings of the monotonic clock, so it
-- is not negative; the sum is an `int64`, by its bit pattern.
pub mod Order
pub mod Ranks
use go_network_lab.Base.{
  ℕ, zero, suc, ◌+◌, ◌-◌, ◌*◌, ◌/◌, ◌%◌, ◌^◌, Bool, true, false, leb, ltb, ◌==◌, if◌then◌else◌,
  List, [], ◌∷◌, length, null, Outcome, ok, ◌>>=◌, index,
}
use go_network_lab.Base.Ints.{ℤ, pos, negsuc}

-- `sort.Slice` with `<`. The elements are numbers, so that any way to sort gives the same list.
unfoldable pub insert_sorted : ℕ → List ℕ → List ℕ
insert_sorted x [] = x ∷ []
insert_sorted x (y ∷ ys) = let rest = insert_sorted x ys in if ltb y x then y ∷ rest else x ∷ y ∷ ys

unfoldable pub sort : List ℕ → List ℕ
unfolding insert_sorted
sort [] = []
sort (x ∷ xs) = insert_sorted x (sort xs)

-- The loop that adds the samples up.
unfoldable pub sum_loop : ℕ → List ℕ → ℕ
sum_loop sum [] = sum
sum_loop sum (x ∷ xs) = sum_loop ((sum + x) % 2 ^ 64) xs

-- `sum / time.Duration(n)` on the pattern of an `int64`, which rounds towards zero.
abbrev pub quotient : ℕ → ℕ → ℤ
quotient sum n =
    if ltb sum (2 ^ 63)
    then pos (sum / n)
    else if (2 ^ 64 - sum) / n == 0
    then pos 0
    else negsuc ((2 ^ 64 - sum) / n - 1)

pub record Stats : Type 0 where
  pub min : ℕ
  pub avg : ℤ
  pub p50 : ℕ
  pub p95 : ℕ

-- The median of the sorted samples.
unfoldable pub median : {Err : Type 0} → List ℕ → Outcome Err ℕ
median samples =
    let middle = length samples / 2 in
    index samples middle >>= λ upper.
    if length samples % 2 == 0
    then (index samples (middle - 1) >>= λ lower. ok (lower + (upper - lower) / 2))
    else ok upper

-- Where the percentile stands.
abbrev pub p95_index : ℕ → ℕ
p95_index n = (95 * n + 99) / 100 - 1

-- What is reported of the sorted samples; an index out of range panics.
unfoldable pub sorted_stats : {Err : Type 0} → List ℕ → Outcome Err Stats
unfolding sum_loop median
sorted_stats samples = median samples >>= λ middle. index samples 0 >>= λ first.
    index samples (p95_index (length samples)) >>= λ high. ok record {
      min = first;
      avg = quotient (sum_loop 0 samples) (length samples);
      p50 = middle;
      p95 = high;
    }

unfoldable pub latency_stats : {Err : Type 0} → List ℕ → Outcome Err Stats
unfolding sort sorted_stats
latency_stats [] = ok record { min = 0; avg = pos 0; p50 = 0; p95 = 0 }
latency_stats (x ∷ xs) = sorted_stats (sort (x ∷ xs))
