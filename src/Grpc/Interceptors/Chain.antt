-- ===== src/Grpc/Interceptors/Chain.antt =====
-- What the chains of interceptors of grpc/fundamentals/server do to a call.
use go_network_lab.Base.{
  ◌≡◌, ◌≢◌, refl, sym, subst, ◌∙◌, ap, ◌⊎◌, inl, inr, true, false, Bool-cases, Option, none, some,
  Option-cases, List, [], ◌∷◌, ◌++◌, append_assoc, Bytes, codes, bytes_eq, bytes_eq_iff, ok, err,
  panic, stuck, take, drop, null, take-append-drop,
}
use mathlib.Core.Path.{ap₂}
use go_network_lab.Grpc.Service.{
  unauthenticated, GrpcError, status, Event, rpc_started, rpc_completed, stream_started,
  stream_completed, entering, exiting, Run, CallContext,
}
use go_network_lab.Grpc.Interceptors.{
  UnaryHandler, UnaryInterceptor, StreamHandler, StreamInterceptor, correlation_id_from_context,
  logging_unary_interceptor, tracing_unary_interceptor, authentication_unary_interceptor,
  unary_interceptors, logging_stream_interceptor, tracing_stream_interceptor, stream_interceptors,
  log_before, log_after, check_value, check_metadata, has_prefix, trim_prefix, bearer_prefix,
  lab_auth_token,
}

-- The first value of `authorization` is the prefix and the token.
abbrev pub Authorized : CallContext → Type 0
Authorized ctx =
    (get : Bytes → List Bytes) × (rest : List Bytes) × (ctx.incoming ≡ some get)
    × (get (codes "authorization") ≡ codes "Bearer lab-secret-token" ∷ rest)

-- A call within what its two interceptors log: `started`, then the entry, the call's own events, the
-- exit, and `completed` with the error; after a panic only what came before it.
unfoldable pub enclosed : {A : Type 0} → Event → (Option GrpcError → Event) → Bytes → Run A → Run A
enclosed started completed m (ok a, es) =
    (ok a, started ∷ entering m ∷ es ++ exiting m ∷ completed none ∷ [])
enclosed started completed m (err e, es) =
    (err e, started ∷ entering m ∷ es ++ exiting m ∷ completed (some e) ∷ [])
enclosed started completed m (panic, es) = (panic, started ∷ entering m ∷ es)
enclosed started completed m (stuck, es) = (stuck, started ∷ entering m ∷ es)

-- The two interceptors, one in the other.
nested :
    {A : Type 0} (started : Event) (completed : Option GrpcError → Event) (m : Bytes) (run : Run A)
    → log_before started
        (log_after completed (log_before (entering m) (log_after (λ e. exiting m) run)))
      ≡ enclosed started completed m run
unfolding enclosed
nested started completed m (ok a, es) =
    ap (λ l. (ok a, started ∷ entering m ∷ l)) (append_assoc es _ _)
nested started completed m (err e, es) =
    ap (λ l. (err e, started ∷ entering m ∷ l)) (append_assoc es _ _)
nested started completed m (panic, es) = refl
nested started completed m (stuck, es) = refl

-- The value that carries the token is the only one that passes.
token_value :
    (v : Bytes)
    → has_prefix v bearer_prefix ≡ true
    → bytes_eq (trim_prefix v bearer_prefix) lab_auth_token ≡ true
    → v ≡ codes "Bearer lab-secret-token"
token_value v p t =
    let front : take 7 v ≡ bearer_prefix = (bytes_eq_iff (take 7 v) bearer_prefix).0 p in
    let same : bytes_eq (drop 7 v) lab_auth_token ≡ true = rw p at t in
    let back : drop 7 v ≡ lab_auth_token = (bytes_eq_iff (drop 7 v) lab_auth_token).0 same in
    sym (take-append-drop 7 v) ∙ ap₂ ◌++◌ front back

rejects :
    {Req Resp : Type 0} (ctx : CallContext) (req : Req) (handler : UnaryHandler Req Resp)
    (v : Bytes) (vs : List Bytes)
    → v ≢ codes "Bearer lab-secret-token"
    → check_value ctx req handler (v ∷ vs) ≡ (err (status unauthenticated), [])
rejects ctx req handler v vs n = elim (Bool-cases (has_prefix v bearer_prefix)) [
  | inr p ↦ rw p refl
  | inl p ↦ elim (Bool-cases (bytes_eq (trim_prefix v bearer_prefix) lab_auth_token)) [
    | inl t ↦ absurd (n (token_value v p t))
    | inr t ↦
        let t' : bytes_eq (drop 7 v) lab_auth_token ≡ false = rw p at t in
        elim (Bool-cases (null (drop 7 v))) [
          | inl q ↦ rw (p, t', q) refl
          | inr q ↦ rw (p, t', q) refl
        ]
  ]
]

module _ {Req Resp : Type 0} (ctx : CallContext) (req : Req) (handler : UnaryHandler Req Resp) where
  -- The interceptor calls the handler where the token is right, and fails without it otherwise.
  abbrev Decides : Run Resp → Type 0
  Decides run =
      (Authorized ctx × (run ≡ handler ctx req))
      ⊎ ((Authorized ctx → ⊥) × (run ≡ (err (status unauthenticated), [])))

  check_value-Decides :
      (get : Bytes → List Bytes) (values : List Bytes)
      → ctx.incoming ≡ some get
      → get (codes "authorization") ≡ values
      → Decides (check_value ctx req handler values)
  unfolding bytes_eq
  check_value-Decides get [] i g = inr (λ (get', rest, i', g'). cc, refl)
  check_value-Decides get (v ∷ vs) i g =
      elim (Bool-cases (bytes_eq v (codes "Bearer lab-secret-token"))) [
        | inl e ↦
            let same = (bytes_eq_iff v (codes "Bearer lab-secret-token")).0 e in
            inl (
              (get, vs, i, g ∙ ap (λ x. x ∷ vs) same),
              ap (λ x. check_value ctx req handler (x ∷ vs)) same,
            )
        | inr e ↦
            let differs : v ≢ codes "Bearer lab-secret-token" =
              λ s. let f = (bytes_eq_iff v (codes "Bearer lab-secret-token")).1 s in cc in
            inr (λ (get', rest, i', g'). differs cc, rejects ctx req handler v vs differs)
      ]

  authentication_unary_interceptor-Decides :
      (m : Bytes) → Decides (authentication_unary_interceptor ctx req m handler)
  unfolding authentication_unary_interceptor
  authentication_unary_interceptor-Decides m = elim (Option-cases ctx.incoming) [
    | inl e ↦ inr (λ (get, rest, i, g). cc, rw e refl)
    | inr (get, e) ↦
        subst (λ o. Decides (check_metadata ctx req handler o)) (sym e)
          (check_value-Decides get (get (codes "authorization")) e refl)
  ]

-- What the chain of the server makes of a call of the handler.
abbrev pub Guarded :
    {Req Resp : Type 0} → UnaryHandler Req Resp → Bytes → CallContext → Req → Run Resp → Type 0
Guarded h m ctx req run =
    let id = correlation_id_from_context ctx in
    let within = enclosed (rpc_started m id) (rpc_completed m id) m in
    (Authorized ctx × (run ≡ within (h ctx req)))
    ⊎ ((Authorized ctx → ⊥) × (run ≡ within (err (status unauthenticated), [])))

-- The chain that the package makes of interceptors: the first is the outermost, and each is given
-- the rest of the chain as its handler.
module _ {Req Resp : Type 0}
    (chain : List (UnaryInterceptor Req Resp)
      → UnaryHandler Req Resp
      → Bytes
      → UnaryHandler Req Resp)
    (chain_nil : (h : UnaryHandler Req Resp) (m : Bytes) (ctx : CallContext) (req : Req)
      → chain [] h m ctx req ≡ h ctx req)
    (chain_cons : (i : UnaryInterceptor Req Resp) (is : List (UnaryInterceptor Req Resp))
        (h : UnaryHandler Req Resp) (m : Bytes) (ctx : CallContext) (req : Req)
      → chain (i ∷ is) h m ctx req ≡ i ctx req m (chain is h m)) where
  chain_unary :
      (h : UnaryHandler Req Resp) (m : Bytes) (ctx : CallContext) (req : Req)
      → chain unary_interceptors h m ctx req
        ≡ enclosed
            (rpc_started m (correlation_id_from_context ctx))
            (rpc_completed m (correlation_id_from_context ctx))
            m
            (authentication_unary_interceptor ctx req m (chain [] h m))
  unfolding logging_unary_interceptor tracing_unary_interceptor
  chain_unary h m ctx req =
      let id = correlation_id_from_context ctx in
      let logged : Run Resp → Run Resp =
        λ run. log_before (rpc_started m id) (log_after (rpc_completed m id) run) in
      let traced : Run Resp → Run Resp =
        λ run. log_before (entering m) (log_after (λ e. exiting m) run) in
      chain_cons _ _ h m ctx req
      ∙ ap logged (chain_cons _ _ h m ctx req)
      ∙ ap (λ run. logged (traced run)) (chain_cons _ _ h m ctx req)
      ∙ nested (rpc_started m id) (rpc_completed m id) m _

  -- A call through the chain of the server: with the right token in the first value of
  -- `authorization` it has the outcome and the events of the handler, within the lines of the two
  -- loggers; with any other metadata the handler is not called, and the error is Unauthenticated.
  pub unary_interceptors-authenticate :
      (h : UnaryHandler Req Resp) (m : Bytes) (ctx : CallContext) (req : Req)
      → Guarded h m ctx req (chain unary_interceptors h m ctx req)
  unary_interceptors-authenticate h m ctx req =
      let id = correlation_id_from_context ctx in
      let within = enclosed (rpc_started m id) (rpc_completed m id) m in
      let whole = chain_unary h m ctx req in
      elim (authentication_unary_interceptor-Decides ctx req (chain [] h m) m) [
        | inl (a, e) ↦ inl (a, whole ∙ ap within (e ∙ chain_nil h m ctx req))
        | inr (n, e) ↦ inr (n, whole ∙ ap within e)
      ]

-- The same for streams, whose handlers are called whatever the metadata is.
module _ (chain : List StreamInterceptor → StreamHandler → Bytes → StreamHandler)
    (chain_nil : (h : StreamHandler) (m : Bytes) (ctx : CallContext) → chain [] h m ctx ≡ h ctx)
    (chain_cons : (i : StreamInterceptor) (is : List StreamInterceptor) (h : StreamHandler)
        (m : Bytes) (ctx : CallContext)
      → chain (i ∷ is) h m ctx ≡ i ctx m (chain is h m)) where
  -- A streaming call through the chain of the server has the outcome and the events of the handler,
  -- whatever the metadata is, within the lines of the two loggers.
  pub stream_interceptors-enclosed :
      (h : StreamHandler) (m : Bytes) (ctx : CallContext)
      → chain stream_interceptors h m ctx
        ≡ enclosed (stream_started m) (stream_completed m) m (h ctx)
  unfolding logging_stream_interceptor tracing_stream_interceptor
  stream_interceptors-enclosed h m ctx =
      let logged : Run (Unit {0}) → Run (Unit {0}) =
        λ run. log_before (stream_started m) (log_after (stream_completed m) run) in
      let traced : Run (Unit {0}) → Run (Unit {0}) =
        λ run. log_before (entering m) (log_after (λ e. exiting m) run) in
      chain_cons _ _ h m ctx
      ∙ ap logged (chain_cons _ _ h m ctx)
      ∙ ap (λ run. logged (traced run)) (chain_nil h m ctx)
      ∙ nested (stream_started m) (stream_completed m) m _
