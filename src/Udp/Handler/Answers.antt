-- ===== src/Udp/Handler/Answers.antt =====
-- udp/protocol/server/handler.go: what the map keeps, and which requests its responses answer.
use go_network_lab.Base.{
  ◌≡◌, refl, ap, ◌∙◌, ◌⊎◌, inl, inr, Bool, true, [], ◌∷◌, none, some, Bytes, codes, bytes_eq,
  bytes_eq_iff, Option-cases, Bool-cases, arith,
}
use go_network_lab.Udp.Message.{Request, Response, validate, validate_for}
use go_network_lab.Base.Utf8.{valid_utf8, valid_from}
use go_network_lab.Udp.Handler.Map.{same_key-eq, lookup-insert, lookup-insert_new}
use go_network_lab.Udp.Handler.{
  RequestKey, same_key, Processed, lookup, insert, respond, handle_request,
}

-- What is in `m` is in `m'`, with the same response.
abbrev pub Keeps : Processed → Processed → Type 0
Keeps m m' = (k : RequestKey) (r : Response) → lookup k m ≡ some r → lookup k m' ≡ some r

abbrev IsStatus : Bytes → Type 0
IsStatus s = (s ≡ codes "OK") ⊎ (s ≡ codes "ERROR")

-- What is as it should be in a response.
abbrev pub Fair : Response → Type 0
Fair r = IsStatus r.status × (valid_utf8 r.payload ≡ true)

pub IsStatus-valid : (s : Bytes) → IsStatus s → valid_utf8 s ≡ true
unfolding valid_utf8 valid_from
IsStatus-valid s (inl e) = rw e refl
IsStatus-valid s (inr e) = rw e refl

-- Each response in the map answers the request under whose key it stands.
abbrev pub Sound : Processed → Type 0
Sound [] = Unit
Sound ((k, r) ∷ m) = (r.id ≡ k.id) × Fair r × Sound m

insert-Sound :
    (k : RequestKey) (r : Response) (m : Processed)
    → r.id ≡ k.id
    → Fair r
    → Sound m
    → Sound (insert k r m)
unfolding insert
insert-Sound k r [] e h sound = (e, h, tt)
insert-Sound k r ((j, s) ∷ m) e h (e', h', sound) = elim (Bool-cases (same_key j k)) [
  | inl here ↦ rw here (e, h, sound)
  | inr there ↦ rw there (e', h', insert-Sound k r m e h sound)
]

lookup-Sound :
    (k : RequestKey) (r : Response) (m : Processed)
    → Sound m
    → lookup k m ≡ some r
    → (r.id ≡ k.id) × Fair r
unfolding lookup
lookup-Sound k r [] sound found = cc
lookup-Sound k r ((j, s) ∷ m) (e, h, sound) found = elim (Bool-cases (same_key j k)) [
  | inl here ↦
      let same : some s ≡ some r = rw here at found in
      let keys : j ≡ k = same_key-eq j k here in
      let responses : s ≡ r = cc in
      let answer : (s.id ≡ k.id) × Fair s = (e ∙ ap (λ x. x.id) keys, h) in rw responses at answer
  | inr there ↦ lookup-Sound k r m sound (rw there at found)
]

respond-Fair :
    (req : Request) (now : Bytes)
    → valid_utf8 now ≡ true
    → ((respond req now).id ≡ req.id) × Fair (respond req now)
unfolding respond valid_utf8 valid_from
respond-Fair req now valid = elim (Bool-cases (bytes_eq req.operation (codes "TIME"))) [
  | inl time ↦ rw time (refl, (inl refl, valid))
  | inr unknown ↦ rw unknown (refl, (inr refl, refl))
]

pub validate_for_lem :
    (r : Response) (req : Request)
    → validate req ≡ none
    → r.id ≡ req.id
    → IsStatus r.status
    → validate_for r req ≡ none
unfolding validate validate_for
validate_for_lem r req fine same (inl is_ok) =
    let e = (bytes_eq_iff r.status (codes "OK")).1 is_ok in ground arith
validate_for_lem r req fine same (inr is_error) =
    let e = (bytes_eq_iff r.status (codes "ERROR")).1 is_error in ground arith

-- The response answers the request, and so it can be given again: the map keeps all that it had.
module _ (m : Processed) (now addr : Bytes) (req : Request) where
  abbrev pub After : Processed × Response × Bool → Type 0
  After (m', r, dup) =
      (lookup (record { addr = addr; id = req.id }) m' ≡ some r)
      × Keeps m m'
      × (valid_utf8 now ≡ true → Sound m → Sound m' × (r.id ≡ req.id) × Fair r)

  pub handle_request-After : After (handle_request m now addr req)
  unfolding handle_request
  handle_request-After =
      let key : RequestKey = record { addr = addr; id = req.id } in
      elim (Option-cases (lookup key m)) [
        | inl new ↦
            rw (new, handle_request)
              (
                lookup-insert key (respond req now) m,
                (λ k r. lookup-insert_new key k (respond req now) r m new),
                λ valid sound.
                    let (same, status) = respond-Fair req now valid in
                    (insert-Sound key (respond req now) m same status sound, same, status),
              )
        | inr (r, found) ↦
            rw (found, handle_request)
              (
                found,
                (λ k s h. h),
                λ valid sound.
                    let (same, status) = lookup-Sound key r m sound found in (sound, same, status),
              )
      ]
