-- ===== src/Udp/Handler/Map.antt =====
-- The map of processed requests as an association list.
use go_network_lab.Base.{
  ◌≡◌, refl, sym, subst, ◌∙◌, inl, inr, true, false, if◌then◌else◌, [], ◌∷◌, none, some,
  bytes_eq_iff, bytes_eq_refl, Bool-cases, arith,
}
use go_network_lab.Udp.Message.{Response}
use go_network_lab.Udp.Handler.{RequestKey, same_key, Processed, lookup, insert}

same_key_refl : (k : RequestKey) → same_key k k ≡ true
same_key_refl k = let e = bytes_eq_refl k.addr in rw e (ground arith)

pub same_key-eq : (j k : RequestKey) → same_key j k ≡ true → j ≡ k
same_key-eq j k h =
    let addrs : j.addr ≡ k.addr = (bytes_eq_iff j.addr k.addr).0 (ground arith) in
    let ids : j.id ≡ k.id = ground arith in λ i. record { addr = addrs i; id = ids i }

pub lookup-insert :
    (k : RequestKey) (r : Response) (m : Processed) → lookup k (insert k r m) ≡ some r
unfolding lookup insert
lookup-insert k r [] = rw (same_key_refl k) refl
lookup-insert k r ((j, s) ∷ m) = elim (Bool-cases (same_key j k)) [
  | inl here ↦ rw (here, same_key_refl k) refl
  | inr there ↦ rw (there, there) (lookup-insert k r m)
]

-- A key that is new takes nothing from the others.
pub lookup-insert_new :
    (k l : RequestKey) (r s : Response) (m : Processed)
    → lookup k m ≡ none
    → lookup l m ≡ some s
    → lookup l (insert k r m) ≡ some s
unfolding lookup insert
lookup-insert_new k l r s [] new found = cc
lookup-insert_new k l r s ((j, t) ∷ m) new found = elim (Bool-cases (same_key j k)) [
  | inl here ↦ let bad : some t ≡ none = rw here at new in cc
  | inr there ↦
      let new_later : lookup k m ≡ none = rw there at new in
      rw there (elim (Bool-cases (same_key j l)) [
        | inl mine ↦ rw mine (rw mine at found)
        | inr others ↦
            let found_later : lookup l m ≡ some s = rw others at found in
            rw others (lookup-insert_new k l r s m new_later found_later)
      ])
]

other_key : (j k l : RequestKey) → same_key j k ≡ false → same_key j l ≡ true → same_key k l ≡ false
other_key j k l there mine = elim (Bool-cases (same_key k l)) [
  | inr e ↦ e
  | inl e ↦
      let one : k ≡ l = same_key-eq k l e in
      let two : j ≡ l = same_key-eq j l mine in
      let same : same_key j k ≡ true =
        subst (λ x. same_key x k ≡ true) (sym (two ∙ sym one)) (same_key_refl k) in
      cc
]

-- What a map answers behind an insertion.
pub lookup-insert-if :
    (k l : RequestKey) (r : Response) (m : Processed)
    → lookup l (insert k r m) ≡ (if same_key k l then some r else lookup l m)
unfolding lookup insert
lookup-insert-if k l r [] = refl
lookup-insert-if k l r ((j, t) ∷ m) = elim (Bool-cases (same_key j k)) [
  | inl here ↦
      let same : j ≡ k = same_key-eq j k here in
      rw (here, same) (elim (Bool-cases (same_key k l)) [ inl e ↦ rw e refl | inr e ↦ rw e refl ])
  | inr there ↦ rw there (elim (Bool-cases (same_key j l)) [
    | inr others ↦ rw others (lookup-insert-if k l r m)
    | inl mine ↦
        let differs : same_key k l ≡ false = other_key j k l there mine in rw (mine, differs) refl
  ])
]
