-- ===== src/Udp/Message.antt =====
-- udp/protocol/protocol.go. Package encoding/json is the parameter `Json`.
use go_network_lab.Base.{
  ℕ, ◌≡◌, ◌⊎◌, inl, inr, Outcome, ok, err, not, ◌||◌, ◌&&◌, Option, none, some, Bytes, codes, null,
  bytes_eq, ◌==◌, if◌then◌else◌,
}
use go_network_lab.Base.{true, ◌<◌, ◌^◌}
use go_network_lab.Base.Utf8.{valid_utf8}
use go_network_lab.Base.Spaces.{trim_space}

-- The ID is a `uint64`.
pub record Request : Type 0 where
  pub id : ℕ
  pub operation : Bytes
  pub payload : Bytes

pub record Response : Type 0 where
  pub id : ℕ
  pub status : Bytes
  pub payload : Bytes

pub data ValidateError : Type 0 where
  id_not_positive empty_operation : ValidateError
  id_mismatch : ℕ → ℕ → ValidateError
  invalid_status : Bytes → ValidateError

unfoldable pub validate : Request → Option ValidateError
validate req =
    if req.id == 0
    then some id_not_positive
    else if null (trim_space req.operation)
    then some empty_operation
    else none

unfoldable pub validate_for : Response → Request → Option ValidateError
validate_for resp req =
    if resp.id == 0 || not (resp.id == req.id)
    then some (id_mismatch resp.id req.id)
    else if not (bytes_eq resp.status (codes "OK")) && not (bytes_eq resp.status (codes "ERROR"))
    then some (invalid_status resp.status)
    else none

-- The values that survive a trip through JSON: strings are coerced to valid UTF-8 on the way.
abbrev pub PlainRequest : Request → Type 0
PlainRequest r = (r.id < 2 ^ 64) × (valid_utf8 r.operation ≡ true) × (valid_utf8 r.payload ≡ true)

abbrev pub PlainResponse : Response → Type 0
PlainResponse r = (r.id < 2 ^ 64) × (valid_utf8 r.status ≡ true) × (valid_utf8 r.payload ≡ true)

-- What the package uses of encoding/json, where `Unmarshal` restores what `Marshal` wrote of such
-- structs.
pub record Json : Type 1 where
  pub JsonError : Type 0
  pub marshal_request : Request → Bytes
  pub unmarshal_request : Bytes → Request ⊎ JsonError
  pub marshal_response : Response → Bytes
  pub unmarshal_response : Bytes → Response ⊎ JsonError
  pub request_restored :
      (r : Request) → PlainRequest r → unmarshal_request (marshal_request r) ≡ inl r
  pub response_restored :
      (r : Response) → PlainResponse r → unmarshal_response (marshal_response r) ≡ inl r

pub data DecodeError (E : Type 0) : Type 0 where
  malformed : E → DecodeError E
  refused : ValidateError → DecodeError E

module _ (json : Json) where
  open json use {
    JsonError, marshal_request, unmarshal_request, marshal_response, unmarshal_response,
  }

  unfoldable pub encode_request : Request → Bytes
  encode_request req = marshal_request req

  unfoldable pub decode_request : Bytes → Outcome (DecodeError JsonError) Request
  decode_request bytes = elim (unmarshal_request bytes) [
    | inr e ↦ err (malformed e)
    | inl req ↦ elim (validate req) [ some e ↦ err (refused e) | none ↦ ok req ]
  ]

  unfoldable pub encode_response : Response → Bytes
  encode_response resp = marshal_response resp

  unfoldable pub decode_response : Bytes → Outcome JsonError Response
  decode_response bytes = elim (unmarshal_response bytes) [ inr e ↦ err e | inl resp ↦ ok resp ]
