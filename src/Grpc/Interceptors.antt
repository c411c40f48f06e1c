-- ===== src/Grpc/Interceptors.antt =====
-- grpc/fundamentals/server: interceptor.go, tracing_interceptor.go, authentication_interceptor.go,
-- and the chains of main.go.
pub mod Chain
use go_network_lab.Base.{
  ℕ, ◌≡◌, refl, Bool, true, false, ◌||◌, not, if◌then◌else◌, Option, none, some, List, [], ◌∷◌,
  ◌++◌, Bytes, codes, null, bytes_eq, Outcome, ok, err, panic, stuck, take, drop, length,
}
use go_network_lab.Grpc.Service.{
  Code, unauthenticated, GrpcError, status, Event, rpc_started, rpc_completed, stream_started,
  stream_completed, entering, exiting, Run, CallContext,
}

abbrev pub lab_auth_token : Bytes
lab_auth_token = codes "lab-secret-token"

abbrev pub bearer_prefix : Bytes
bearer_prefix = codes "Bearer "

abbrev pub UnaryHandler : Type 0 → Type 0 → Type 0
UnaryHandler Req Resp = CallContext → Req → Run Resp

-- The full name of the method stands for `info`.
abbrev pub UnaryInterceptor : Type 0 → Type 0 → Type 0
UnaryInterceptor Req Resp = CallContext → Req → Bytes → UnaryHandler Req Resp → Run Resp

-- A handler of a stream, which carries its context.
abbrev pub StreamHandler : Type 0
StreamHandler = CallContext → Run (Unit {0})

abbrev pub StreamInterceptor : Type 0
StreamInterceptor = CallContext → Bytes → StreamHandler → Run (Unit {0})

abbrev pub first_value : Bytes → List Bytes → Bytes
first_value default [] = default
first_value default (v ∷ vs) = v

abbrev pub get_or_missing : Option (Bytes → List Bytes) → Bytes
get_or_missing none = codes "missing"
get_or_missing (some get) = first_value (codes "missing") (get (codes "x-correlation-id"))

abbrev pub correlation_id_from_context : CallContext → Bytes
correlation_id_from_context ctx = get_or_missing ctx.incoming

-- The line that is logged behind the call of the handler, which takes its error; a panic of the
-- handler goes through.
abbrev pub log_after : {A : Type 0} → (Option GrpcError → Event) → Run A → Run A
log_after line (ok resp, es) = (ok resp, es ++ line none ∷ [])
log_after line (err e, es) = (err e, es ++ line (some e) ∷ [])
log_after line (panic, es) = (panic, es)
log_after line (stuck, es) = (stuck, es)

abbrev pub log_before : {A : Type 0} → Event → Run A → Run A
log_before line (r, es) = (r, line ∷ es)

-- `strings.HasPrefix(s, prefix)`
abbrev pub has_prefix : Bytes → Bytes → Bool
has_prefix s prefix = bytes_eq (take (length prefix) s) prefix

-- `strings.TrimPrefix(s, prefix)`
abbrev pub trim_prefix : Bytes → Bytes → Bytes
trim_prefix s prefix = if has_prefix s prefix then drop (length prefix) s else s

module _ {Req Resp : Type 0} where
  unfoldable pub logging_unary_interceptor : UnaryInterceptor Req Resp
  logging_unary_interceptor ctx req full_method handler =
      let id = correlation_id_from_context ctx in
      log_before (rpc_started full_method id)
        (log_after (rpc_completed full_method id) (handler ctx req))

  unfoldable pub tracing_unary_interceptor : UnaryInterceptor Req Resp
  tracing_unary_interceptor ctx req full_method handler =
      log_before (entering full_method) (log_after (λ e. exiting full_method) (handler ctx req))

  -- The tests on the first value of `authorization`.
  abbrev pub check_value : CallContext → Req → UnaryHandler Req Resp → List Bytes → Run Resp
  check_value ctx req handler [] = (err (status unauthenticated), [])
  check_value ctx req handler (value ∷ values) =
      let token = trim_prefix value bearer_prefix in
      if not (has_prefix value bearer_prefix)
      then (err (status unauthenticated), [])
      else if null token || not (bytes_eq token lab_auth_token)
      then (err (status unauthenticated), [])
      else handler ctx req

  abbrev pub check_metadata :
      CallContext → Req → UnaryHandler Req Resp → Option (Bytes → List Bytes) → Run Resp
  check_metadata ctx req handler none = (err (status unauthenticated), [])
  check_metadata ctx req handler (some get) =
      check_value ctx req handler (get (codes "authorization"))

  unfoldable pub authentication_unary_interceptor : UnaryInterceptor Req Resp
  authentication_unary_interceptor ctx req full_method handler =
      check_metadata ctx req handler ctx.incoming

  -- What main gives to `grpc.ChainUnaryInterceptor`.
  abbrev pub unary_interceptors : List (UnaryInterceptor Req Resp)
  unary_interceptors =
      logging_unary_interceptor ∷ tracing_unary_interceptor ∷ authentication_unary_interceptor ∷ []

unfoldable pub logging_stream_interceptor : StreamInterceptor
logging_stream_interceptor ctx full_method handler =
    log_before (stream_started full_method) (log_after (stream_completed full_method) (handler ctx))

unfoldable pub tracing_stream_interceptor : StreamInterceptor
tracing_stream_interceptor ctx full_method handler =
    log_before (entering full_method) (log_after (λ e. exiting full_method) (handler ctx))

-- What main gives to `grpc.ChainStreamInterceptor`.
abbrev pub stream_interceptors : List StreamInterceptor
stream_interceptors = logging_stream_interceptor ∷ tracing_stream_interceptor ∷ []
