-- ===== src/Http/Reader/Search.antt =====
-- What `bytes.Index` finds.
use go_network_lab.Base.{
  ℕ, suc, ◌+◌, ◌≡◌, refl, sym, ap, ◌∙◌, inl, inr, true, [], ◌∷◌, ◌++◌, none, some, Bytes, length,
  take, drop, Bool-cases, Option-cases, arith,
}
use go_network_lab.Http.Reader.{has_prefix, index_of}

has_prefix-eq-true : (p s : Bytes) → has_prefix p s ≡ true → s ≡ p ++ drop (length p) s
unfolding has_prefix
has_prefix-eq-true [] s h = refl
has_prefix-eq-true (x ∷ p) [] h = cc
has_prefix-eq-true (x ∷ p) (c ∷ s) h =
    let same : x ≡ c = ground arith in
    let rest : has_prefix p s ≡ true = ground arith in
    ap (◌∷◌ c) (has_prefix-eq-true p s rest) ∙ ap (λ z. z ∷ p ++ drop (length p) s) (sym same)

-- What stands before a separator that is found, and behind it.
pub index_of-eq-some :
    (sep s : Bytes) (i : ℕ)
    → index_of sep s ≡ some i
    → s ≡ take i s ++ (sep ++ drop (i + length sep) s)
unfolding index_of has_prefix
index_of-eq-some [] [] i h = let at_start : 0 ≡ i = cc in rw (← at_start) refl
index_of-eq-some (x ∷ p) [] i h = cc
index_of-eq-some sep (c ∷ s) i h = elim (Bool-cases (has_prefix sep (c ∷ s))) [
  | inl here ↦
      let found : some 0 ≡ some i = rw (here, index_of) at h in
      let at_start : i ≡ 0 = cc in
      let z : 0 + length sep ≡ length sep = omega arith in
      rw (at_start, z) (has_prefix-eq-true sep (c ∷ s) here)
  | inr later ↦ elim (Option-cases (index_of sep s)) [
    | inl missing ↦ let bad : none ≡ some i = rw (later, missing, index_of) at h in cc
    | inr (j, found) ↦
        let place : some (suc j) ≡ some i = rw (later, found, index_of) at h in
        let behind : i ≡ suc j = cc in
        let z : suc j + length sep ≡ suc (j + length sep) = omega arith in
        rw (behind, z) (ap (◌∷◌ c) (index_of-eq-some sep s j found))
  ]
]
