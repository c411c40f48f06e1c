-- ===== src/Base/Outcomes.antt =====
-- What a Go call can do: return a value, return an error, panic on an index out of range, or
-- (`stuck`) not return within the fuel or the scripted events that the model gives it.
use Prim.Native.Nat.{ℕ, ◌+◌, ◌-◌, ◌≤◌, ◌<◌}
use mathlib.Core.Path.{◌≡◌, refl, ◌∙◌}
use mathlib.Core.Logic.{◌⊎◌, inl, inr}
use mathlib.Core.Bool.{Bool, true, false, ◌&&◌}
use mathlib.Core.List.{List, ◌∷◌, ◌++◌}
use mathlib.Core.Option.{none, some}
use native.Mathlib.Omega.{arith}
use go_network_lab.Base.Tests.{leb, if◌then◌else◌}
use go_network_lab.Base.Lists.{
  length, take, drop, get_elem?, get_elem?_lt, get_elem?-append, length-append, drop-append,
  take-append,
}

pub data Outcome (E A : Type 0) : Type 0 where
  ok : A → Outcome E A
  err : E → Outcome E A
  panic : Outcome E A
  stuck : Outcome E A

infixl 5 ◌>>=◌ ◌>>◌
abbrev pub ◌>>=◌ : {E A B : Type 0} → Outcome E A → (A → Outcome E B) → Outcome E B
ok a >>= f = f a
err e >>= f = err e
panic >>= f = panic
stuck >>= f = stuck

-- `if err != nil { return …, fmt.Errorf("…: %w", err) }`
abbrev pub wrap_err : {E F A : Type 0} → (E → F) → Outcome E A → Outcome F A
wrap_err w (ok a) = ok a
wrap_err w (err e) = err (w e)
wrap_err w panic = panic
wrap_err w stuck = stuck

abbrev pub ◌>>◌ : {E B : Type 0} → Outcome E (Unit {0}) → Outcome E B → Outcome E B
m >> k = m >>= λ _. k

-- `if b { return …, e }`
abbrev pub fail_if : {E : Type 0} → Bool → E → Outcome E (Unit {0})
fail_if true e = err e
fail_if false e = ok tt

-- The call returns, and a value that it returns satisfies `P`.
abbrev pub Returns : {E A : Type 0} → Outcome E A → (A → Type 0) → Type 0
Returns (ok a) P = P a
Returns (err e) P = Unit
Returns panic P = ⊥
Returns stuck P = ⊥

module _ {E A : Type 0} where
  pub Returns-bind :
      {B : Type 0} (P : A → Type 0) (Q : B → Type 0) (m : Outcome E A) (f : A → Outcome E B)
      → Returns m P
      → ((a : A) → P a → Returns (f a) Q)
      → Returns (m >>= f) Q
  Returns-bind P Q (ok a) f h k = k a h
  Returns-bind P Q (err e) f h k = tt
  Returns-bind P Q panic f h k = absurd h
  Returns-bind P Q stuck f h k = absurd h

  pub Returns-wrap_err :
      {F : Type 0} (P : A → Type 0) (w : E → F) (m : Outcome E A)
      → Returns m P
      → Returns (wrap_err w m) P
  Returns-wrap_err P w (ok a) h = h
  Returns-wrap_err P w (err e) h = tt
  Returns-wrap_err P w panic h = h
  Returns-wrap_err P w stuck h = h

  pub Returns-fail_if :
      (P : A → Type 0) (b : Bool) (e : E) (m : Outcome E A)
      → (b ≡ false → Returns m P)
      → Returns (fail_if b e >> m) P
  Returns-fail_if P true e m h = tt
  Returns-fail_if P false e m h = h refl

  -- What is known of a value that is returned, put to use.
  Returns-ok : (P : A → Type 0) {m : Outcome E A} {a : A} → m ≡ ok a → Returns m P → P a
  Returns-ok P e h = rw e at h

  pub Outcome-cases :
      (m : Outcome E A)
      → ((a : A) × (m ≡ ok a)) ⊎ (((e : E) × (m ≡ err e)) ⊎ ((m ≡ panic) ⊎ (m ≡ stuck)))
  Outcome-cases (ok a) = inl (a, refl)
  Outcome-cases (err e) = inr (inl (e, refl))
  Outcome-cases panic = inr (inr (inl refl))
  Outcome-cases stuck = inr (inr (inr refl))

  -- A chain that returned has returned at each step.
  pub >>=-eq-ok :
      {B : Type 0} (first : Outcome E A) (next : A → Outcome E B) {b : B}
      → first >>= next ≡ ok b
      → (value : A) × (first ≡ ok value) × (next value ≡ ok b)
  >>=-eq-ok stuck next e = cc
  >>=-eq-ok panic next e = cc
  >>=-eq-ok (err x) next e = cc
  >>=-eq-ok (ok value) next e = (value, refl, e)

  pub wrap_err-eq-ok :
      {F : Type 0} (w : E → F) (m : Outcome E A) {a : A} → wrap_err w m ≡ ok a → m ≡ ok a
  wrap_err-eq-ok w (ok b) h = ground arith
  wrap_err-eq-ok w (err e) h = cc
  wrap_err-eq-ok w panic h = cc
  wrap_err-eq-ok w stuck h = cc

  -- `xs[i]`
  unfoldable pub index : List A → ℕ → Outcome E A
  index xs i = elim (get_elem? xs i) [ none ↦ panic | some x ↦ ok x ]

  -- `xs[lo:hi]`, where the capacity is the length
  unfoldable pub slice : List A → ℕ → ℕ → Outcome E (List A)
  slice xs lo hi =
      if leb lo hi && leb hi (length xs) then ok (take (hi - lo) (drop lo xs)) else panic

  pub index_lt : (xs : List A) (i : ℕ) → i < length xs → (x : A) × (index xs i ≡ ok x)
  unfolding index
  index_lt xs i h = let (x, e) = get_elem?_lt xs i h in (x, rw (e, index))

  pub index-append : (xs : List A) (y : A) (ys : List A) → index (xs ++ y ∷ ys) (length xs) ≡ ok y
  unfolding index
  index-append xs y ys =
      let e : length xs + 0 ≡ length xs = omega arith in
      let got : get_elem? (xs ++ y ∷ ys) (length xs) ≡ some y =
        rw e at (get_elem?-append xs (y ∷ ys) 0) in
      rw (got, index)

  pub slice_lem :
      (xs : List A) (lo hi : ℕ)
      → lo ≤ hi
      → hi ≤ length xs
      → slice xs lo hi ≡ ok (take (hi - lo) (drop lo xs))
  unfolding slice
  slice_lem xs lo hi p q = ground arith

  pub slice-append :
      (xs ys zs : List A) (hi : ℕ)
      → hi ≡ length xs + length ys
      → slice (xs ++ (ys ++ zs)) (length xs) hi ≡ ok ys
  slice-append xs ys zs hi e =
      slice_lem (xs ++ (ys ++ zs)) (length xs) hi (omega arith)
        (omega (arith, length-append {0} xs (ys ++ zs), length-append {0} ys zs))
      ∙ rw (from_start, counted, take-append) refl
    where
      from_start : drop (length xs) (xs ++ (ys ++ zs)) ≡ ys ++ zs
      from_start =
          let z : length xs + 0 ≡ length xs = omega arith in rw z at (drop-append xs (ys ++ zs) 0)

      counted : hi - length xs ≡ length ys
      counted = omega arith
