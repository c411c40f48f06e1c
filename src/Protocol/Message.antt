-- ===== src/Protocol/Message.antt =====
-- protocol/protocol.go: the messages, `Validate` and `ErrorResponse`; and `dispatch` of
-- tcp/protocol/server/main.go.
pub mod Meaning
use go_network_lab.Base.{
  ℕ, ◌≡◌, ◌<◌, ◌^◌, Bool, true, false, not, ◌&&◌, ◌||◌, Option, none, some, Bytes, codes, null, [],
  bytes_eq, if◌then◌else◌,
}
use go_network_lab.Base.Ints.{ℤ, pos, is_pos, not_positive, FitsInt}
use go_network_lab.Base.Utf8.{valid_utf8}

abbrev pub version : ℕ
version = 1

-- `type` is a reserved word, so the field has the longer name.
pub record Request : Type 0 where
  pub version : ℤ
  pub id : ℤ
  pub kind : Bytes
  pub message : Bytes

pub record Response : Type 0 where
  pub version : ℤ
  pub id : ℤ
  pub kind : Bytes
  pub message : Bytes
  pub value : Bytes

-- The values that survive a trip through JSON: strings are coerced to valid UTF-8 on the way.
abbrev pub PlainRequest : Request → Type 0
PlainRequest r =
    FitsInt r.version × FitsInt r.id × (valid_utf8 r.kind ≡ true) × (valid_utf8 r.message ≡ true)

abbrev pub PlainResponse : Response → Type 0
PlainResponse r =
    FitsInt r.version
    × FitsInt r.id
    × (valid_utf8 r.kind ≡ true)
    × (valid_utf8 r.message ≡ true)
    × (valid_utf8 r.value ≡ true)

pub data Invalid : Type 0 where
  unsupported_version : ℤ → Invalid
  id_not_positive echo_without_message : Invalid
  unknown_type : Bytes → Invalid

unfoldable pub validate : Request → Option Invalid
validate r =
    if not (is_pos r.version version)
    then some (unsupported_version r.version)
    else if not_positive r.id
    then some id_not_positive
    else if bytes_eq r.kind (codes "PING") || bytes_eq r.kind (codes "TIME")
    then none
    else if bytes_eq r.kind (codes "ECHO")
    then (if null r.message then some echo_without_message else none)
    else some (unknown_type r.kind)

-- The switch of `dispatch`, on a request that is valid. `now` is the time as text.
unfoldable pub reply : Request → Bytes → Response
reply r now =
    let plain : Response = record {
      version = pos version;
      id = r.id;
      kind = [];
      message = [];
      value = [];
    } in
    if bytes_eq r.kind (codes "PING")
    then record plain { kind = codes "PONG" }
    else if bytes_eq r.kind (codes "ECHO")
    then record plain { kind = codes "ECHO"; message = r.message }
    else if bytes_eq r.kind (codes "TIME")
    then record plain { kind = codes "TIME"; value = now }
    else plain

pub record DispatchResult : Type 0 where
  pub response : Response
  pub close_connection : Bool

-- `Error` of the errors is a parameter, since it prints numbers and quotes text.
module _ (error_text : Invalid → Bytes) where
  unfoldable pub error_response : ℤ → Invalid → Response
  error_response id e = record {
    version = pos version;
    id = id;
    kind = codes "ERROR";
    message = error_text e;
    value = [];
  }

  unfoldable pub dispatch : Request → Bytes → DispatchResult
  dispatch r now = elim (validate r) [
    | some e ↦ record { response = error_response r.id e; close_connection = true }
    | none ↦ record { response = reply r now; close_connection = false }
  ]
