-- ===== src/Protocol/Message/Meaning.antt =====
-- Which requests are valid, and what they are answered.
use go_network_lab.Base.{
  ℕ, ◌≡◌, ◌≢◌, ◌<◌, refl, ap, ◌⊎◌, inl, inr, ◌↔◌, true, false, none, some, Bytes, codes, null,
  bytes_eq, bytes_eq_iff, [], ◌∷◌, Option-cases, arith,
}
use go_network_lab.Base.Ints.{ℤ, pos, negsuc, is_pos, not_positive}
use go_network_lab.Protocol.Message.{
  Request, Response, Invalid, validate, error_response, reply, DispatchResult, dispatch,
}

-- The requests that the protocol names.
abbrev pub Valid : Request → Type 0
Valid r =
    (r.version ≡ pos 1)
    × ((n : ℕ) × (r.id ≡ pos n) × (0 < n))
    × ((r.kind ≡ codes "PING")
        ⊎ ((r.kind ≡ codes "TIME") ⊎ ((r.kind ≡ codes "ECHO") × (r.message ≢ []))))

is_pos_iff : (i : ℤ) (n : ℕ) → (is_pos i n ≡ true) ↔ (i ≡ pos n)
is_pos_iff (pos m) n = ((λ h. ap pos (ground arith)), λ e. let f : m ≡ n = cc in ground arith)
is_pos_iff (negsuc m) n = ((λ h. cc), λ e. cc)

not_positive_iff : (i : ℤ) → (not_positive i ≡ false) ↔ ((n : ℕ) × (i ≡ pos n) × (0 < n))
not_positive_iff (pos m) =
    ((λ h. (m, refl, ground arith)), λ (n, e, p). let f : m ≡ n = cc in ground arith)
not_positive_iff (negsuc m) = ((λ h. cc), λ (n, e, p). cc)

null_iff : (s : Bytes) → (null s ≡ false) ↔ (s ≢ [])
null_iff [] = ((λ h. cc), λ h. absurd (h refl))
null_iff (x ∷ s) = ((λ h e. cc), λ h. refl)

-- `Valid`, as the code tests it.
abbrev Tested : Request → Type 0
Tested r =
    (is_pos r.version 1 ≡ true)
    × (not_positive r.id ≡ false)
    × ((bytes_eq r.kind (codes "PING") ≡ true)
        ⊎ ((bytes_eq r.kind (codes "TIME") ≡ true)
            ⊎ ((bytes_eq r.kind (codes "ECHO") ≡ true) × (null r.message ≡ false))))

Tested-Valid : (r : Request) → Tested r ↔ Valid r
Tested-Valid r = (
  (λ (v, i, k). (
    (is_pos_iff r.version 1).0 v,
    (not_positive_iff r.id).0 i,
    elim k [
      | inl p ↦ inl ((bytes_eq_iff r.kind (codes "PING")).0 p)
      | inr (inl p) ↦ inr (inl ((bytes_eq_iff r.kind (codes "TIME")).0 p))
      | inr (inr (p, m)) ↦
          inr (inr ((bytes_eq_iff r.kind (codes "ECHO")).0 p, (null_iff r.message).0 m))
    ],
  )),
  λ (v, i, k). (
    (is_pos_iff r.version 1).1 v,
    (not_positive_iff r.id).1 i,
    elim k [
      | inl p ↦ inl ((bytes_eq_iff r.kind (codes "PING")).1 p)
      | inr (inl p) ↦ inr (inl ((bytes_eq_iff r.kind (codes "TIME")).1 p))
      | inr (inr (p, m)) ↦
          inr (inr ((bytes_eq_iff r.kind (codes "ECHO")).1 p, (null_iff r.message).1 m))
    ],
  ),
)

validate-Tested : (r : Request) → (validate r ≡ none) ↔ Tested r
unfolding validate
validate-Tested r = ground arith

-- `Validate` accepts exactly the requests that the protocol names.
validate_iff : (r : Request) → (validate r ≡ none) ↔ Valid r
validate_iff r = (
  (λ h. (Tested-Valid r).0 ((validate-Tested r).0 h)),
  λ h. (validate-Tested r).1 ((Tested-Valid r).1 h),
)

-- The kind of the response by the kind of a valid request, with what it carries.
abbrev pub Replies : Bytes → Request → Response → Type 0
Replies now r p =
    (r.kind ≡ codes "PING") × (p.kind ≡ codes "PONG") × (p.message ≡ []) × (p.value ≡ [])
    ⊎ ((r.kind ≡ codes "ECHO") × (p.kind ≡ codes "ECHO") × (p.message ≡ r.message) × (p.value ≡ [])
        ⊎ (r.kind ≡ codes "TIME") × (p.kind ≡ codes "TIME") × (p.message ≡ []) × (p.value ≡ now))

reply-Replies :
    (now : Bytes) (r : Request)
    → Valid r
    → ((reply r now).version ≡ pos 1) × ((reply r now).id ≡ r.id) × Replies now r (reply r now)
unfolding reply bytes_eq
reply-Replies now r (v, i, inl ping) = rw ping (refl, refl, inl (refl, refl, refl, refl))
reply-Replies now r (v, i, inr (inl time)) =
    rw time (refl, refl, inr (inr (refl, refl, refl, refl)))
reply-Replies now r (v, i, inr (inr (echo, m))) =
    rw echo (refl, refl, inr (inl (refl, refl, refl, refl)))

-- What `dispatch` makes of a request.
abbrev pub Dispatched : (Invalid → Bytes) → Bytes → Request → DispatchResult → Type 0
Dispatched error_text now r d =
    (d.response.version ≡ pos 1)
    × (d.response.id ≡ r.id)
    × (Valid r × (d.close_connection ≡ false) × Replies now r d.response
        ⊎ (Valid r → ⊥)
          × (d.close_connection ≡ true)
          × (d.response.kind ≡ codes "ERROR")
          × ((e : Invalid) × (validate r ≡ some e) × (d.response.message ≡ error_text e)))

-- Every request is answered under its own ID: a valid one by the response that its type asks for,
-- and the connection stays open; any other by an error, and the connection is to be closed.
pub dispatch-Dispatched :
    (error_text : Invalid → Bytes) (now : Bytes) (r : Request)
    → Dispatched error_text now r (dispatch error_text r now)
unfolding dispatch error_response
dispatch-Dispatched error_text now r = elim (Option-cases (validate r)) [
  | inl fine ↦
      let valid = (validate_iff r).0 fine in
      let (v, i, replies) = reply-Replies now r valid in
      rw (fine, dispatch) (v, i, inl (valid, refl, replies))
  | inr (e, bad) ↦
      let refused : Valid r → ⊥ = λ valid. let fine = (validate_iff r).1 valid in cc in
      rw (bad, dispatch) (refl, refl, inr (refused, refl, refl, (e, refl, refl)))
]
