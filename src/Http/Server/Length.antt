-- ===== src/Http/Server/Length.antt =====
-- The length that a response declares.
use go_network_lab.Base.{
  ℕ, zero, suc, ◌+◌, ◌-◌, ◌*◌, ◌/◌, ◌%◌, ◌≤◌, ◌<◌, ◌≡◌, refl, ◌∙◌, true, false, inl, inr, [], ◌∷◌,
  some, Bytes, ltb, leb, ◌==◌, Bool-cases, arith,
}
use go_network_lab.Http.Body.{atoi, number_from, decimal_digit, max_int}
use go_network_lab.Http.Server.{digits, decimal}

-- One more than the largest number of so many digits.
abbrev room : ℕ → ℕ
room zero = 1
room (suc n) = 10 * room n

digit_back : (d : ℕ) → d < 10 → decimal_digit (48 + d) ≡ some d
digit_back d h =
    let low : leb 48 (48 + d) ≡ true = ground arith in
    let high : leb (48 + d) 57 ≡ true = ground arith in
    let e : 48 + d - 48 ≡ d = omega arith in rw (low, high, e) refl

number_from-digits :
    (fuel n : ℕ) (later : Bytes)
    → n < room fuel
    → number_from 10 decimal_digit 0 (digits fuel n later) ≡ number_from 10 decimal_digit n later
unfolding digits number_from
number_from-digits zero n later h = let z : n ≡ 0 = omega arith in rw z refl
number_from-digits (suc fuel) n later h = elim (Bool-cases (ltb n 10)) [
  | inl small ↦
      let d = digit_back n (ground arith) in
      let e : 0 * 10 + n ≡ n = omega arith in rw (small, digits) (rw (d, e, number_from) refl)
  | inr large ↦
      let d = digit_back (n % 10) (omega arith) in
      let e : n / 10 * 10 + n % 10 ≡ n = omega arith in
      rw (large, digits)
        (number_from-digits fuel (n / 10) ((48 + n % 10) ∷ later) (omega arith)
          ∙ rw (d, e, number_from) refl)
]

-- A text that begins with a digit.
abbrev Begins : Bytes → Type 0
Begins s = (d : ℕ) × (rest : Bytes) × (s ≡ (48 + d) ∷ rest) × (d < 10)

digits-Begins : (fuel n d : ℕ) (rest : Bytes) → d < 10 → Begins (digits fuel n ((48 + d) ∷ rest))
unfolding digits
digits-Begins zero n d rest h = (d, rest, refl, h)
digits-Begins (suc fuel) n d rest h = elim (Bool-cases (ltb n 10)) [
  | inl small ↦ (n, (48 + d) ∷ rest, rw (small, digits) refl, ground arith)
  | inr large ↦
      rw (large, digits) (digits-Begins fuel (n / 10) (n % 10) ((48 + d) ∷ rest) (omega arith))
]

decimal-Begins : (n : ℕ) → Begins (decimal n)
unfolding decimal digits
decimal-Begins n = elim (Bool-cases (ltb n 10)) [
  | inl small ↦ (n, [], rw (small, digits) refl, ground arith)
  | inr large ↦ rw (large, digits) (digits-Begins 19 (n / 10) (n % 10) [] (omega arith))
]

-- On a text that begins with a digit, `Atoi` reads digits to the largest `int`.
atoi-digit :
    (d : ℕ) (rest : Bytes) (n : ℕ)
    → d < 10
    → number_from 10 decimal_digit 0 ((48 + d) ∷ rest) ≡ some n
    → n ≤ max_int
    → atoi ((48 + d) ∷ rest) ≡ some n
unfolding atoi
atoi-digit d rest n h value fits =
    let plus : (48 + d == 43) ≡ false = ground arith in
    let minus : (48 + d == 45) ≡ false = ground arith in
    let small : leb n max_int ≡ true = ground arith in rw (plus, minus, value, small) refl

-- A length is read back by `strconv.Atoi` from the way in which a response prints it.
atoi-decimal : (n : ℕ) → n ≤ max_int → atoi (decimal n) ≡ some n
unfolding decimal number_from
atoi-decimal n h =
    let (d, rest, begins, small) = decimal-Begins n in
    let value : number_from 10 decimal_digit 0 (decimal n) ≡ some n =
      number_from-digits 20 n [] (omega arith) in
    rw begins (atoi-digit d rest n small (rw begins at value) h)
