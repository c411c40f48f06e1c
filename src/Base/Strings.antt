-- ===== src/Base/Strings.antt =====
-- What the programs use of Go's package strings, over bytes.
use mathlib.Core.Path.{◌≡◌, refl, ap, ◌∙◌}
use mathlib.Core.Bool.{Bool, true, false}
use mathlib.Core.List.{List, [], ◌∷◌, ◌++◌}
use mathlib.Core.Logic.{inl, inr}
use Prim.Native.Nat.{ℕ}
use native.Mathlib.Omega.{arith}
use go_network_lab.Base.Tests.{Bytes, ◌==◌, if◌then◌else◌, ==_iff, Bool-cases}

-- `strings.TrimSuffix(s, sep)` at a separator of one byte
unfoldable pub trim_suffix : ℕ → Bytes → Bytes
trim_suffix sep [] = []
trim_suffix sep (c ∷ []) = if c == sep then [] else c ∷ []
trim_suffix sep (c ∷ d ∷ cs) = c ∷ trim_suffix sep (d ∷ cs)

-- A byte in front of the first part.
abbrev pub onto_first : ℕ → List Bytes → List Bytes
onto_first c [] = (c ∷ []) ∷ []
onto_first c (p ∷ ps) = (c ∷ p) ∷ ps

abbrev split_at : Bool → ℕ → List Bytes → List Bytes
split_at true c ps = [] ∷ ps
split_at false c ps = onto_first c ps

-- `strings.Split(s, sep)` at a separator of one byte
unfoldable pub split : ℕ → Bytes → List Bytes
split sep [] = [] ∷ []
split sep (c ∷ cs) = split_at (c == sep) c (split sep cs)

-- `strings.Join(parts, sep)` at a separator of one byte
unfoldable pub join : ℕ → List Bytes → Bytes
join sep [] = []
join sep (p ∷ []) = p
join sep (p ∷ q ∷ ps) = p ++ sep ∷ join sep (q ∷ ps)

join-onto_first :
    (sep c : ℕ) (p : Bytes) (ps : List Bytes) → join sep ((c ∷ p) ∷ ps) ≡ c ∷ join sep (p ∷ ps)
unfolding join
join-onto_first sep c p [] = refl
join-onto_first sep c p (q ∷ ps) = refl

-- The parts of a text, of which there is at least one.
split_cons : (sep : ℕ) (s : Bytes) → (p : Bytes) × (ps : List Bytes) × (split sep s ≡ p ∷ ps)
unfolding split
split_cons sep [] = ([], [], refl)
split_cons sep (c ∷ cs) = elim (Bool-cases (c == sep)) [
  | inl e ↦ ([], split sep cs, rw e)
  | inr e ↦ let (p, ps, h) = split_cons sep cs in (c ∷ p, ps, rw (e, h))
]

pub join-split : (sep : ℕ) (s : Bytes) → join sep (split sep s) ≡ s
unfolding split join
join-split sep [] = refl
join-split sep (c ∷ cs) =
    let (p, ps, h) = split_cons sep cs in
    let back : join sep (p ∷ ps) ≡ cs = rw h at (join-split sep cs) in
    elim (Bool-cases (c == sep)) [
      | inl e ↦ rw (e, h) (ground (arith, (==_iff c sep).0 e, back))
      | inr e ↦ rw (e, h) (join-onto_first sep c p ps ∙ ap (◌∷◌ c) back)
    ]
