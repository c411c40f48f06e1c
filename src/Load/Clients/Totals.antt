-- ===== src/Load/Clients/Totals.antt =====
-- What main of the clients that measure prints, and the order in which its clients end.
use go_network_lab.Base.{
  ℕ, ◌+◌, ◌%◌, ◌^◌, ◌<◌, ◌≡◌, refl, sym, ap, subst, ◌∙◌, ◌⊎◌, inl, inr, List, [], ◌∷◌, append_assoc,
  length, length-append, Outcome, ok, ◌>>=◌, Option, some, none, All, arith,
}
use mathlib.Core.Logic.{∥∥₁_elim}
use mathlib.Core.List.{Perm, Permᴰ, perm_append_comm}
use mathlib.Core.List.Perm
use go_network_lab.Load.Latency.{Stats}
use go_network_lab.Load.Latency.Order.{sum}
use go_network_lab.Load.Latency.Ranks.{latency_stats-Perm, Summarises, latency_stats-Summarises}
use go_network_lab.Load.Clients.{
  ClientResult, no_result, add_result, total_loop, report, Report, stats_of, average_rejection,
}

-- The same counters, and the same latencies in some order.
abbrev Similar : ClientResult → ClientResult → Type 0
Similar c d =
    (c.completed ≡ d.completed)
    × (c.errors ≡ d.errors)
    × (c.unfinished ≡ d.unfinished)
    × (c.rejected ≡ d.rejected)
    × (c.rejected_latency ≡ d.rejected_latency)
    × Perm c.latencies d.latencies

Similar-refl : (c : ClientResult) → Similar c c
Similar-refl c = (refl, refl, refl, refl, refl, Perm.rfl)

Similar-trans : (a b c : ClientResult) → Similar a b → Similar b c → Similar a c
Similar-trans a b c (h1, h2, h3, h4, h5, h6) (g1, g2, g3, g4, g5, g6) =
    (h1 ∙ g1, h2 ∙ g2, h3 ∙ g3, h4 ∙ g4, h5 ∙ g5, Perm.trans h6 g6)

Similar-add_result :
    (c d a b : ClientResult) → Similar c d → a ≡ b → Similar (add_result c a) (add_result d b)
unfolding add_result
Similar-add_result c d a b (h1, h2, h3, h4, h5, h6) e =
    subst (λ b. Similar (add_result c a) (add_result d b)) e
      (
        ap (λ n. n + a.completed) h1,
        ap (λ n. n + a.errors) h2,
        ap (λ n. n + a.unfinished) h3,
        ap (λ n. n + a.rejected) h4,
        ap (λ n. (n + a.rejected_latency) % 2 ^ 64) h5,
        Perm.append_right a.latencies h6,
      )

-- Two results in the other order.
swapped :
    (c a b : ClientResult) → Similar (add_result (add_result c a) b) (add_result (add_result c b) a)
unfolding add_result
swapped c a b = (
  omega arith,
  omega arith,
  omega arith,
  omega arith,
  omega arith,
  rw
      (
        append_assoc c.latencies a.latencies b.latencies,
        append_assoc c.latencies b.latencies a.latencies,
      )
      (Perm.append_left c.latencies (perm_append_comm a.latencies b.latencies)),
)

total_loop-Similar :
    (c d : ClientResult) (rs : List ClientResult)
    → Similar c d
    → Similar (total_loop c rs) (total_loop d rs)
unfolding total_loop
total_loop-Similar c d [] h = h
total_loop-Similar c d (r ∷ rs) h =
    total_loop-Similar (add_result c r) (add_result d r) rs (Similar-add_result c d r r h refl)

total_loop-Permᴰ :
    {rs rs' : List ClientResult} (c d : ClientResult)
    → Permᴰ rs rs'
    → Similar c d
    → Similar (total_loop c rs) (total_loop d rs')
unfolding total_loop
total_loop-Permᴰ c d Permᴰ.nil h = h
total_loop-Permᴰ c d (Permᴰ.cons {a = a} {b = b} e p) h =
    total_loop-Permᴰ (add_result c a) (add_result d b) p (Similar-add_result c d a b h e)
total_loop-Permᴰ c d (Permᴰ.swap {a = a} {b = b} {a' = a'} {b' = b'} {l = l} e f) h =
    let second =
      Similar-add_result (add_result c b) (add_result d a') a b' (Similar-add_result c d b a' h f)
        e in
    total_loop-Similar _ _ l (Similar-trans _ _ _ (swapped c a b) second)
total_loop-Permᴰ c d (Permᴰ.trans p q) h =
    Similar-trans _ _ _ (total_loop-Permᴰ c d p h) (total_loop-Permᴰ d d q (Similar-refl d))

-- The report on similar results.
stats_of-Perm : {Err : Type 0} (xs ys : List ℕ) → Perm xs ys → stats_of {Err = Err} xs ≡ stats_of ys
stats_of-Perm [] [] p = refl
stats_of-Perm (x ∷ xs) (y ∷ ys) p =
    ap (λ r. r >>= λ s. ok (some s)) (latency_stats-Perm (x ∷ xs) (y ∷ ys) p)
stats_of-Perm [] (y ∷ ys) p = let e = Perm.nil-eq p in cc
stats_of-Perm (x ∷ xs) [] p = let e = Perm.eq-nil p in cc

-- What the report makes of the counters and the outcome of the statistics.
abbrev printed :
    {Err : Type 0} → ℕ → ℕ → ℕ → ℕ → ℕ → Outcome Err (Option Stats) → Outcome Err Report
printed c e u r l o = o >>= λ s. ok record {
  completed_total = c;
  errors_total = e;
  rejected_total = r;
  rejection_latency = average_rejection r l;
  unfinished_total = u;
  stats = s;
}

report-Similar : {Err : Type 0} (c d : ClientResult) → Similar c d → report {Err = Err} c ≡ report d
unfolding report
report-Similar {Err} c d (h1, h2, h3, h4, h5, h6) = λ i.
    printed {Err = Err} (h1 i) (h2 i) (h3 i) (h4 i) (h5 i)
      (stats_of-Perm c.latencies d.latencies h6 i)

-- The results of the clients arrive in any order, and main prints the same report.
pub report-Perm :
    {Err : Type 0} (results results' : List ClientResult)
    → Perm results results'
    → report {Err = Err} (total_loop no_result results) ≡ report (total_loop no_result results')
report-Perm {Err} results results' p =
    let similar : Similar (total_loop no_result results) (total_loop no_result results') =
      ∥∥₁_elim p (hlevel) λ d. total_loop-Permᴰ no_result no_result d (Similar-refl no_result) in
    report-Similar {Err = Err} _ _ similar

-- A total that counts what it lists is reported without a panic.
abbrev pub Reported : {Err : Type 0} → ClientResult → Outcome Err Report → Type 0
Reported {Err} total o =
    (r : Report) × (o ≡ ok r)
    × (r.completed_total ≡ total.completed)
    × (((total.completed ≡ 0) × (r.stats ≡ none))
        ⊎ ((s : Stats) × (r.stats ≡ some s) × Summarises total.latencies s))

total_loop-counted :
    (c : ClientResult) (results : List ClientResult)
    → c.completed ≡ length c.latencies
    → All (λ c. c.completed ≡ length c.latencies) results
    → (total_loop c results).completed ≡ length ((total_loop c results).latencies)
unfolding total_loop add_result
total_loop-counted c [] e h = e
total_loop-counted c (r ∷ rs) e (p, h) =
    total_loop-counted (add_result c r) rs (omega (arith, length-append c.latencies r.latencies)) h

reports :
    {Err : Type 0} (total : ClientResult)
    → total.completed ≡ length total.latencies
    → sum total.latencies < 2 ^ 63
    → Reported total (report {Err = Err} total)
unfolding report
reports {Err} total e small = by_latencies total.latencies refl
  where
    by_latencies :
        (ls : List ℕ)
        → total.latencies ≡ ls
        → Reported total (
            printed total.completed total.errors total.unfinished total.rejected
              total.rejected_latency
              (stats_of {Err = Err} ls))
    by_latencies [] q =
        let z : total.completed ≡ 0 = e ∙ ap length q in (_, refl, refl, inl (z, refl))
    by_latencies (x ∷ xs) q =
        let small' : sum (x ∷ xs) < 2 ^ 63 = subst (λ ls. sum ls < 2 ^ 63) q small in
        let (s, es, h) = latency_stats-Summarises {Err = Err} x xs small' in
        (
          _,
          ap
              (λ o.
                printed total.completed total.errors total.unfinished total.rejected
                  total.rejected_latency (o >>= λ s. ok (some s)))
              es,
          refl,
          inr (s, refl, subst (λ ls. Summarises ls s) (sym q) h),
        )

-- Where each client counts its latencies, and their sum fits into a Duration, main prints a report:
-- with statistics of all the latencies, unless no request was completed.
pub report-Reported :
    {Err : Type 0} (results : List ClientResult)
    → All (λ c. c.completed ≡ length c.latencies) results
    → sum ((total_loop no_result results).latencies) < 2 ^ 63
    → Reported (total_loop no_result results) (report {Err = Err} (total_loop no_result results))
unfolding report
report-Reported {Err} results counted small =
    reports (total_loop no_result results) (total_loop-counted no_result results refl counted) small
