-- ===== src/Load/Clients/Waves.antt =====
-- The clients that open connections one after the other: `runWave` of
-- load/protection/connections/client/main.go and main of load/resources/connections/client/main.go.
use go_network_lab.Base.{
  ℕ, zero, suc, ◌+◌, ◌-◌, ◌≡◌, refl, ◌↔◌, if◌then◌else◌, List, [], ◌∷◌, length, min, Bytes, codes,
  bytes_eq, Option, none, some, Bool-cases, inl, inr, arith,
}
use go_network_lab.Base.Io.{IoError}

-- How an attempt goes: the dial fails, the line of the server cannot be read, or it is read.
pub data WaveAttempt : Type 0 where
  undialled unread : IoError → WaveAttempt
  line : Bytes → WaveAttempt

-- An error of an attempt.
pub data WaveError : Type 0 where
  io : IoError → WaveError
  unexpected_response : Bytes → WaveError

-- The variables of runWave; `successful` is `len(connections)`.
pub record Wave : Type 0 where
  pub attempted : ℕ
  pub successful : ℕ
  pub rejected : ℕ
  pub failed : ℕ
  pub first_error : Option WaveError

abbrev pub no_attempt : Wave
no_attempt = record { attempted = 0; successful = 0; rejected = 0; failed = 0; first_error = none }

abbrev pub first_of : Option WaveError → WaveError → Option WaveError
first_of none e = some e
first_of (some e') e = some e'

-- `failed++`, and the error if it is the first.
unfoldable pub fail : WaveError → Wave → Wave
fail e w = record w { failed = w.failed + 1; first_error = first_of w.first_error e }

-- What an attempt does behind `attempted++`.
unfoldable pub attempt : WaveAttempt → Wave → Wave
unfolding fail
attempt (undialled e) w = fail (io e) w
attempt (unread e) w = fail (io e) w
attempt (line reply) w =
    if bytes_eq reply (codes "OK\n")
    then record w { successful = w.successful + 1 }
    else if bytes_eq reply (codes "BUSY\n")
    then record w { rejected = w.rejected + 1 }
    else fail (unexpected_response reply) w

-- The loop: `n` attempts are left, and the list is cut off where the context is done.
unfoldable pub wave_loop : ℕ → List WaveAttempt → Wave → Wave
unfolding attempt
wave_loop zero attempts w = w
wave_loop (suc n) [] w = w
wave_loop (suc n) (a ∷ attempts) w =
    wave_loop n attempts (attempt a (record w { attempted = w.attempted + 1 }))

unfoldable pub run_wave : ℕ → List WaveAttempt → Wave
unfolding wave_loop
run_wave clients attempts = wave_loop clients attempts no_attempt

-- What is printed as unattempted.
abbrev pub unattempted : ℕ → Wave → ℕ
unattempted clients w = clients - w.attempted

-- Every attempt is counted once, and there is a first error exactly if one has failed.
abbrev pub Tallied : Wave → Type 0
Tallied w =
    (w.attempted ≡ w.successful + w.rejected + w.failed) × ((w.first_error ≡ none) ↔ (w.failed ≡ 0))

first_of_some : (o : Option WaveError) (e : WaveError) → (first_of o e ≡ none) → ⊥
first_of_some none e h = cc
first_of_some (some x) e h = cc

-- An attempt that is counted is counted once.
attempt-Tallied :
    (a : WaveAttempt) (w : Wave)
    → Tallied w
    → Tallied (attempt a (record w { attempted = w.attempted + 1 }))
unfolding attempt fail
attempt-Tallied (undialled e) w (t, f) =
    (omega arith, (λ h. absurd (first_of_some w.first_error (io e) h), λ h. absurd (omega arith)))
attempt-Tallied (unread e) w (t, f) =
    (omega arith, (λ h. absurd (first_of_some w.first_error (io e) h), λ h. absurd (omega arith)))
attempt-Tallied (line reply) w (t, f) = elim (Bool-cases (bytes_eq reply (codes "OK\n"))) [
  | inl o ↦ rw o (omega arith, f)
  | inr o ↦ elim (Bool-cases (bytes_eq reply (codes "BUSY\n"))) [
    | inl b ↦ rw (o, b) (omega arith, f)
    | inr b ↦
        rw (o, b)
          (
            omega arith,
            (
              λ h. absurd (first_of_some w.first_error (unexpected_response reply) h),
              λ h. absurd (omega arith),
            ),
          )
  ]
]

-- An attempt does not change how many there were.
attempt-attempted : (a : WaveAttempt) (w : Wave) → (attempt a w).attempted ≡ w.attempted
unfolding attempt fail
attempt-attempted (undialled e) w = refl
attempt-attempted (unread e) w = refl
attempt-attempted (line reply) w = ground arith

wave_loop-Tallied :
    (n : ℕ) (attempts : List WaveAttempt) (w : Wave) → Tallied w → Tallied (wave_loop n attempts w)
unfolding wave_loop
wave_loop-Tallied zero attempts w t = t
wave_loop-Tallied (suc n) [] w t = t
wave_loop-Tallied (suc n) (a ∷ attempts) w t =
    wave_loop-Tallied n attempts _ (attempt-Tallied a w t)

wave_loop-attempted :
    (n : ℕ) (attempts : List WaveAttempt) (w : Wave)
    → (wave_loop n attempts w).attempted ≡ w.attempted + min n (length attempts)
unfolding wave_loop
wave_loop-attempted zero attempts w = omega arith
wave_loop-attempted (suc n) [] w = omega arith
wave_loop-attempted (suc n) (a ∷ attempts) w = omega (
  arith,
  wave_loop-attempted n attempts (attempt a (record w { attempted = w.attempted + 1 })),
  attempt-attempted a (record w { attempted = w.attempted + 1 }),
)

-- The numbers printed add up to the attempts requested, as many were made as the context allowed,
-- and there is a first error exactly if an attempt has failed.
abbrev pub AddsUp : ℕ → List WaveAttempt → Wave → Type 0
AddsUp clients attempts w =
    (w.successful + w.rejected + w.failed + unattempted clients w ≡ clients)
    × (w.attempted ≡ min clients (length attempts))
    × ((w.first_error ≡ none) ↔ (w.failed ≡ 0))

-- The line that runWave prints adds up: the attempts requested are those that succeeded, were
-- rejected, failed, or were not made because the context was done; and it reports a first error
-- exactly if an attempt failed.
pub run_wave-AddsUp :
    (clients : ℕ) (attempts : List WaveAttempt)
    → AddsUp clients attempts (run_wave clients attempts)
unfolding run_wave
run_wave-AddsUp clients attempts =
    let (t, f) = wave_loop-Tallied clients attempts no_attempt (refl, (λ h. refl, λ h. refl)) in
    let n = wave_loop-attempted clients attempts no_attempt in (omega arith, omega arith, f)

-- The loop of the client of load/resources: each attempt is a dial, with its error.
pub record Held : Type 0 where
  pub held : ℕ
  pub undialled_count : ℕ
  pub first_failure : Option IoError

abbrev first_failure_of : Option IoError → IoError → Option IoError
first_failure_of none e = some e
first_failure_of (some e') e = some e'

unfoldable pub hold_loop : ℕ → List (Option IoError) → Held → Held
hold_loop zero dials h = h
hold_loop (suc n) [] h = h
hold_loop (suc n) (none ∷ dials) h = hold_loop n dials (record h { held = h.held + 1 })
hold_loop (suc n) (some e ∷ dials) h = hold_loop n dials (record h {
  undialled_count = h.undialled_count + 1;
  first_failure = first_failure_of h.first_failure e;
})
