-- ===== src/Load/Latency/Order.antt =====
-- What the sort of `latencyStats` does: the samples ascend, and their order does not matter.
use go_network_lab.Base.{
  ℕ, suc, ◌+◌, ◌≤◌, ◌≡◌, refl, ap, ◌∙◌, Bool, ltb, if◌then◌else◌, inl, inr, Bool-cases, List, [],
  ◌∷◌, length, All, arith,
}
use mathlib.Core.Path.{ap₂}
use mathlib.Core.Logic.{∥∥₁_elim}
use mathlib.Core.List.{Perm, Permᴰ}
use go_network_lab.Load.Latency.{insert_sorted, sort}

-- How many elements pass a test.
unfoldable pub count : (ℕ → Bool) → List ℕ → ℕ
count p [] = 0
count p (x ∷ xs) = (if p x then 1 else 0) + count p xs

unfoldable pub sum : List ℕ → ℕ
sum [] = 0
sum (x ∷ xs) = x + sum xs

abbrev pub Ascending : List ℕ → Type 0
Ascending [] = Unit
Ascending (x ∷ xs) = All (λ y. x ≤ y) xs × Ascending xs

insert_sorted_comm :
    (x y : ℕ) (l : List ℕ)
    → insert_sorted x (insert_sorted y l) ≡ insert_sorted y (insert_sorted x l)
unfolding insert_sorted
insert_sorted_comm x y [] = ground arith
insert_sorted_comm x y (z ∷ zs) = ground (arith, insert_sorted_comm x y zs)

count-insert_sorted :
    (p : ℕ → Bool) (x : ℕ) (l : List ℕ) → count p (insert_sorted x l) ≡ count p (x ∷ l)
unfolding insert_sorted count
count-insert_sorted p x [] = refl
count-insert_sorted p x (y ∷ ys) = ground (arith, count-insert_sorted p x ys)

pub count-sort : (p : ℕ → Bool) (l : List ℕ) → count p (sort l) ≡ count p l
unfolding sort count
count-sort p [] = refl
count-sort p (x ∷ xs) = ground (arith, count-insert_sorted p x (sort xs), count-sort p xs)

sum-insert_sorted : (x : ℕ) (l : List ℕ) → sum (insert_sorted x l) ≡ x + sum l
unfolding insert_sorted sum
sum-insert_sorted x [] = refl
sum-insert_sorted x (y ∷ ys) = ground (arith, sum-insert_sorted x ys)

pub sum-sort : (l : List ℕ) → sum (sort l) ≡ sum l
unfolding sort sum
sum-sort [] = refl
sum-sort (x ∷ xs) = ground (arith, sum-insert_sorted x (sort xs), sum-sort xs)

length-insert_sorted : (x : ℕ) (l : List ℕ) → length (insert_sorted x l) ≡ suc (length l)
unfolding insert_sorted
length-insert_sorted x [] = refl
length-insert_sorted x (y ∷ ys) = ground (arith, length-insert_sorted x ys)

pub length-sort : (l : List ℕ) → length (sort l) ≡ length l
unfolding sort
length-sort [] = refl
length-sort (x ∷ xs) = length-insert_sorted x (sort xs) ∙ ap suc (length-sort xs)

All-weaken : (a b : ℕ) (l : List ℕ) → a ≤ b → All (λ y. b ≤ y) l → All (λ y. a ≤ y) l
All-weaken a b [] h t = tt
All-weaken a b (x ∷ xs) h (p, t) = (omega arith, All-weaken a b xs h t)

All-insert_sorted :
    (a x : ℕ) (l : List ℕ) → a ≤ x → All (λ y. a ≤ y) l → All (λ y. a ≤ y) (insert_sorted x l)
unfolding insert_sorted
All-insert_sorted a x [] h t = (h, tt)
All-insert_sorted a x (y ∷ ys) h (p, t) = elim (Bool-cases (ltb y x)) [
  | inl e ↦ rw e (p, All-insert_sorted a x ys h t)
  | inr e ↦ rw e (h, (p, t))
]

insert_sorted-Ascending : (x : ℕ) (l : List ℕ) → Ascending l → Ascending (insert_sorted x l)
unfolding insert_sorted
insert_sorted-Ascending x [] h = (tt, tt)
insert_sorted-Ascending x (y ∷ ys) (p, h) = elim (Bool-cases (ltb y x)) [
  | inl e ↦
      let le : y ≤ x = ground arith in
      rw e (All-insert_sorted y x ys le p, insert_sorted-Ascending x ys h)
  | inr e ↦ let le : x ≤ y = ground arith in rw e ((le, All-weaken x y ys le p), (p, h))
]

pub sort-Ascending : (l : List ℕ) → Ascending (sort l)
unfolding sort
sort-Ascending [] = tt
sort-Ascending (x ∷ xs) = insert_sorted-Ascending x (sort xs) (sort-Ascending xs)

sort-Permᴰ : {xs ys : List ℕ} → Permᴰ xs ys → sort xs ≡ sort ys
unfolding sort
sort-Permᴰ Permᴰ.nil = refl
sort-Permᴰ (Permᴰ.cons {a = a} {l₂ = ys} e d) =
    ap (insert_sorted a) (sort-Permᴰ d) ∙ ap (λ x. insert_sorted x (sort ys)) e
sort-Permᴰ (Permᴰ.swap {a = a} {b = b} {l = l} e f) =
    insert_sorted_comm a b (sort l) ∙ ap₂ (λ x y. insert_sorted x (insert_sorted y (sort l))) f e
sort-Permᴰ (Permᴰ.trans d e) = sort-Permᴰ d ∙ sort-Permᴰ e

-- The order of the samples does not matter.
pub sort-Perm : {xs ys : List ℕ} → Perm xs ys → sort xs ≡ sort ys
sort-Perm {xs} {ys} p = ∥∥₁_elim p (hlevel) sort-Permᴰ
