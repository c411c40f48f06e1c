-- ===== src/Load/Latency/Ranks.antt =====
-- What `latencyStats` reports of the samples.
use go_network_lab.Base.{
  ℕ, zero, suc, ◌+◌, ◌-◌, ◌*◌, ◌/◌, ◌%◌, ◌^◌, ◌≤◌, ◌<◌, ◌≡◌, refl, sym, ap, ◌∙◌, subst, leb, ltb,
  ◌==◌, inl, inr, Bool-cases, List, [], ◌∷◌, length, get_elem?, get_elem?_lt, some, All, arith, ok,
  index,
}
use mathlib.Core.Path.{ap₂}
use mathlib.Core.List.{Perm}
use mathlib.Core.List.Perm
use go_network_lab.Base.Ints.{pos}
use go_network_lab.Load.Latency.{
  Stats, latency_stats, sorted_stats, median, sort, sum_loop, quotient, p95_index,
}
use go_network_lab.Load.Latency.Order.{
  count, sum, Ascending, count-sort, sum-sort, length-sort, sort-Ascending, sort-Perm,
}

-- A number below all of the others counts none below it.
count_none : (v : ℕ) (l : List ℕ) → All (λ y. v ≤ y) l → count (λ x. ltb x v) l ≡ 0
unfolding count
count_none v [] h = refl
count_none v (x ∷ xs) (p, h) = ground (arith, count_none v xs h)

count-All : (v : ℕ) (l : List ℕ) → All (λ y. v ≤ y) l → count (leb v) l ≡ length l
unfolding count
count-All v [] h = refl
count-All v (x ∷ xs) (p, h) = ground (arith, count-All v xs h)

All-get_elem? :
    (holds : ℕ → Type 0) (l : List ℕ) (i : ℕ) {v : ℕ}
    → All holds l
    → get_elem? l i ≡ some v
    → holds v
All-get_elem? holds (x ∷ xs) zero (p, h) e = let s : x ≡ _ = cc in subst holds s p
All-get_elem? holds (x ∷ xs) (suc i) (p, h) e = All-get_elem? holds xs i h e
All-get_elem? holds [] i h e = cc

-- Where `v` stands at index `i` of ascending numbers: at least `i + 1` are up to `v`, at most `i` are
-- below it, and all from there on are at least `v`.
ranks :
    (l : List ℕ) (i : ℕ) {v : ℕ}
    → Ascending l
    → get_elem? l i ≡ some v
    → (i < count (λ x. leb x v) l) × (count (λ x. ltb x v) l ≤ i) × (length l ≤ i + count (leb v) l)
unfolding count
ranks (x ∷ xs) zero {v} (p, h) e =
    let s : x ≡ v = cc in
    subst
      (λ v.
        (0 < count (λ x. leb x v) (x ∷ xs))
        × (count (λ x. ltb x v) (x ∷ xs) ≤ 0)
        × (length (x ∷ xs) ≤ 0 + count (leb v) (x ∷ xs)))
      s (ground arith, ground (arith, count_none x xs p), ground (arith, count-All x xs p))
ranks (x ∷ xs) (suc i) {v} (p, h) e =
    let (a, b, c) = ranks xs i h e in
    let le : x ≤ v = All-get_elem? (λ y. x ≤ y) xs i p e in
    (ground arith, ground arith, ground arith)
ranks [] i h e = cc

-- Neighbours ascend.
neighbours :
    (l : List ℕ) (i : ℕ) {v w : ℕ}
    → Ascending l
    → get_elem? l i ≡ some v
    → get_elem? l (suc i) ≡ some w
    → v ≤ w
neighbours (x ∷ xs) zero {v} {w} (p, h) e f =
    let s : x ≡ v = cc in subst (λ y. y ≤ w) s (All-get_elem? (λ y. x ≤ y) xs 0 p f)
neighbours (x ∷ xs) (suc i) (p, h) e f = neighbours xs i h e f
neighbours [] i h e f = cc

count-leb_mono : (a b : ℕ) (l : List ℕ) → a ≤ b → count (λ x. leb x a) l ≤ count (λ x. leb x b) l
unfolding count
count-leb_mono a b [] h = omega arith
count-leb_mono a b (x ∷ xs) h = ground (arith, count-leb_mono a b xs h)

count-geb_mono : (a b : ℕ) (l : List ℕ) → a ≤ b → count (leb b) l ≤ count (leb a) l
unfolding count
count-geb_mono a b [] h = omega arith
count-geb_mono a b (x ∷ xs) h = ground (arith, count-geb_mono a b xs h)

-- Without overflow the loop adds up.
sum_loop-sum : (s : ℕ) (l : List ℕ) → s + sum l < 2 ^ 63 → sum_loop s l ≡ s + sum l
unfolding sum_loop sum
sum_loop-sum s [] h = omega arith
sum_loop-sum s (x ∷ xs) h =
    let e : (s + x) % 2 ^ 64 ≡ s + x = omega arith in
    rw e (sum_loop-sum (s + x) xs (omega arith) ∙ omega arith)

index_at :
    {Err : Type 0} (l : List ℕ) (i : ℕ)
    → i < length l
    → (v : ℕ) × (get_elem? l i ≡ some v) × (index {E = Err} l i ≡ ok v)
unfolding index
index_at l i h = let (v, e) = get_elem?_lt l i h in (v, e, rw (e, index))

-- At least half of the samples are up to the median, and at least half are at least the median.
abbrev pub IsMedian : List ℕ → ℕ → Type 0
IsMedian xs m = (length xs ≤ 2 * count (λ x. leb x m) xs) × (length xs ≤ 2 * count (leb m) xs)

median-IsMedian :
    {Err : Type 0} (l : List ℕ)
    → 0 < length l
    → Ascending l
    → (m : ℕ) × (median {Err = Err} l ≡ ok m) × IsMedian l m
unfolding median
median-IsMedian {Err} l h s = elim (Bool-cases (length l % 2 == 0)) [
  | inr odd ↦
      let (v, g, i) = index_at {Err = Err} l (length l / 2) (omega arith) in
      let (a, b, c) = ranks l (length l / 2) s g in
      (v, rw (i, odd) refl, (omega arith, ground arith))
  | inl even ↦
      let two : 2 ≤ length l = ground arith in
      let same : suc (length l / 2 - 1) ≡ length l / 2 = omega arith in
      let (upper, g, i) = index_at {Err = Err} l (length l / 2) (omega arith) in
      let (lower, g', i') = index_at {Err = Err} l (length l / 2 - 1) (omega arith) in
      let le =
        neighbours l (length l / 2 - 1) s g'
          (subst (λ j. get_elem? l j ≡ some upper) (sym same) g) in
      let m = lower + (upper - lower) / 2 in
      let (a, b, c) = ranks l (length l / 2) s g in
      let (a', b', c') = ranks l (length l / 2 - 1) s g' in
      let above = count-leb_mono lower m l (omega arith) in
      let below = count-geb_mono m upper l (omega arith) in
      (m, rw (i, even, i') refl, (ground arith, ground arith))
]

-- What the numbers mean, whatever the order of the samples is: the least sample, the mean, a median,
-- and the sample at the 95th percentile by the nearest rank, that is, the least one that at least
-- 95 percent of the samples do not exceed.
abbrev pub Summarises : List ℕ → Stats → Type 0
Summarises xs s =
    (count (λ x. ltb x s.min) xs ≡ 0)
    × (0 < count (λ x. leb x s.min) xs)
    × (s.avg ≡ pos (sum xs / length xs))
    × IsMedian xs s.p50
    × (95 * length xs ≤ 100 * count (λ x. leb x s.p95) xs)
    × (100 * count (λ x. ltb x s.p95) xs < 95 * length xs)

-- What holds of the sorted samples holds of the samples.
Summarises-sort : (xs : List ℕ) (s : Stats) → Summarises (sort xs) s → Summarises xs s
Summarises-sort xs s (a, b, c, (d, d'), e, f) =
    let n = length-sort xs in
    (
      omega (arith, count-sort (λ x. ltb x s.min) xs),
      omega (arith, count-sort (λ x. leb x s.min) xs),
      c ∙ ap₂ (λ t k. pos (t / k)) (sum-sort xs) n,
      (omega (arith, count-sort (λ x. leb x s.p50) xs), omega (arith, count-sort (leb s.p50) xs)),
      omega (arith, count-sort (λ x. leb x s.p95) xs),
      omega (arith, count-sort (λ x. ltb x s.p95) xs),
    )

quotient_small : (s n : ℕ) → s < 2 ^ 63 → quotient s n ≡ pos (s / n)
quotient_small s n h = ground arith

sorted_stats-Summarises :
    {Err : Type 0} (l : List ℕ)
    → 0 < length l
    → Ascending l
    → sum l < 2 ^ 63
    → (s : Stats) × (sorted_stats {Err = Err} l ≡ ok s) × Summarises l s
unfolding sorted_stats
sorted_stats-Summarises {Err} l n s h =
    let small : 0 + sum l < 2 ^ 63 = omega arith in
    let (m, em, hm) = median-IsMedian {Err = Err} l n s in
    let (v, g, i) = index_at {Err = Err} l 0 n in
    let (w, g', i') = index_at {Err = Err} l (p95_index (length l)) (omega arith) in
    let (a, b, c) = ranks l 0 s g in
    let (a', b', c') = ranks l (p95_index (length l)) s g' in
    let total : sum_loop 0 l ≡ 0 + sum l = sum_loop-sum 0 l small in
    let avg : quotient (sum_loop 0 l) (length l) ≡ pos (sum l / length l) =
      ap (λ t. quotient t (length l)) (total ∙ omega arith) ∙ quotient_small (sum l) (length l) h in
    (
      record { min = v; avg = quotient (sum_loop 0 l) (length l); p50 = m; p95 = w },
      rw (em, i, i') refl,
      (omega arith, a, avg, hm, omega arith, omega arith),
    )

-- latencyStats of at least one sample, whose sum fits into a Duration, does not panic, and reports
-- the least sample, the mean, a median, and the 95th percentile by the nearest rank.
pub latency_stats-Summarises :
    {Err : Type 0} (x : ℕ) (xs : List ℕ)
    → sum (x ∷ xs) < 2 ^ 63
    → (s : Stats) × (latency_stats {Err = Err} (x ∷ xs) ≡ ok s) × Summarises (x ∷ xs) s
unfolding latency_stats
latency_stats-Summarises {Err} x xs h =
    let l = sort (x ∷ xs) in
    let (s, e, r) =
      sorted_stats-Summarises {Err = Err} l (omega (arith, length-sort (x ∷ xs)))
        (sort-Ascending (x ∷ xs)) (omega (arith, sum-sort (x ∷ xs))) in
    (s, e, Summarises-sort (x ∷ xs) s r)

-- latencyStats does not depend on the order of the samples.
pub latency_stats-Perm :
    {Err : Type 0} (xs ys : List ℕ) → Perm xs ys → latency_stats {Err = Err} xs ≡ latency_stats ys
unfolding latency_stats
latency_stats-Perm [] [] p = refl
latency_stats-Perm (x ∷ xs) (y ∷ ys) p = ap sorted_stats (sort-Perm p)
latency_stats-Perm [] (y ∷ ys) p = let e = Perm.nil-eq p in cc
latency_stats-Perm (x ∷ xs) [] p = let e = Perm.eq-nil p in cc
