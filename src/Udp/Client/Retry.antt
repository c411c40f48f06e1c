-- ===== src/Udp/Client/Retry.antt =====
-- What the client prints, and what it gets when a response is lost.
use go_network_lab.Base.{
  ℕ, zero, suc, ◌+◌, ◌≤◌, ◌<◌, ◌≡◌, refl, sym, ap, ◌∙◌, ◌⊎◌, inl, inr, Bool, true, List, [], ◌∷◌,
  none, some, Bytes, take, take_all, length, get_elem?, ok, Option-cases, Outcome-cases, arith,
}
use go_network_lab.Base.Io.{IoError}
use go_network_lab.Udp.Message.{
  Request, Response, PlainResponse, Json, validate_for, encode_request, encode_response,
  decode_response,
}
use go_network_lab.Udp.Handler.{Processed, Packet, handle, serve, serve_one}
use go_network_lab.Udp.Handler.Cache.{handle-replayed, decode_response-encode_response}
use go_network_lab.Udp.Client.{
  Attempt, answered, write_failed, deadline_failed, undecodable, unsuitable, broken, conclude_reply,
  attempt_loop, run_client,
}

module _ (json : Json) (req : Request) where
  conclude_reply-eq-answered :
      (datagram : Bytes) (r : Response)
      → conclude_reply json req datagram ≡ answered r
      → (decode_response json (take 1024 datagram) ≡ ok r) × (validate_for r req ≡ none)
  unfolding conclude_reply
  conclude_reply-eq-answered datagram r h =
      elim (Outcome-cases (decode_response json (take 1024 datagram))) [
        | inl (x, decoded) ↦ elim (Option-cases (validate_for x req)) [
          | inl suits ↦
              let got : answered x ≡ answered r = rw (decoded, suits, conclude_reply) at h in
              let same : x ≡ r = cc in
              (decoded ∙ ap ok same, ap (λ y. validate_for y req) (sym same) ∙ suits)
          | inr (e, bad) ↦
              let wrong : unsuitable e ≡ answered r = rw (decoded, bad, conclude_reply) at h in cc
        ]
        | inr (inl (e, bad)) ↦
            let wrong : undecodable e ≡ answered r = rw (bad, conclude_reply) at h in cc
        | inr (inr (inl bad)) ↦
            let wrong : broken ≡ answered r = rw (bad, conclude_reply) at h in cc
        | inr (inr (inr bad)) ↦
            let wrong : broken ≡ answered r = rw (bad, conclude_reply) at h in cc
      ]

  conclude_reply-suits :
      (r : Response)
      → PlainResponse r
      → validate_for r req ≡ none
      → length (encode_response json r) ≤ 1024
      → conclude_reply json req (encode_response json r) ≡ answered r
  unfolding conclude_reply
  conclude_reply-suits r plain suits fits =
      let whole = take_all 1024 (encode_response json r) fits in
      let decoded : decode_response json (take 1024 (encode_response json r)) ≡ ok r =
        ap (decode_response json) whole ∙ decode_response-encode_response json r plain in
      rw (decoded, suits, conclude_reply) refl

  -- An attempt whose response does not arrive in time.
  abbrev pub lost : IoError → Attempt
  lost e = record { write_failure = none; deadline_failure = none; reply = inr e }

  abbrev pub replied : Bytes → Attempt
  replied datagram = record { write_failure = none; deadline_failure = none; reply = inl datagram }

  -- When the response to a request is lost and the server has handled any packets since, the second
  -- attempt brings the client the response that the server made for the first, whatever the time is.
  -- The request and the response fit into the buffers, and the response is valid UTF-8 and suits.
  pub run_client-retried :
      (m m' : Processed) (now later addr : Bytes) (r : Response) (dup : Bool)
      (between : List (Packet json)) (e : IoError)
      → handle json m now addr (encode_request json req) ≡ (m', ok (r, dup))
      → length (encode_request json req) ≤ 1024
      → length (encode_response json r) ≤ 1024
      → PlainResponse r
      → validate_for r req ≡ none
      → ((serve_one json
            (serve json m' between).0
            (record { addr = addr; bytes = encode_request json req; now = later })).1
          ≡ some (addr, encode_response json r))
        × (run_client json req (lost e ∷ replied (encode_response json r) ∷ []) ≡ (answered r, 2))
  unfolding serve_one run_client attempt_loop
  run_client-retried m m' now later addr r dup between e handled fits fits' plain suits =
      let again =
        handle-replayed json m m' now addr (encode_request json req) r dup handled between later in
      let whole = take_all 1024 (encode_request json req) fits in
      let behind = (serve json m' between).0 in
      let received : handle json behind later addr (take 1024 (encode_request json req))
          ≡ (behind, ok (r, true)) =
        ap (handle json behind later addr) whole ∙ again in
      (
        rw (received, serve_one) refl,
        ap (λ c. (c, 0 + 1 + 1)) (conclude_reply-suits r plain suits fits'),
      )

  reply-cases : (x : Bytes ⊎ IoError) → ((d : Bytes) × (x ≡ inl d)) ⊎ ((e : IoError) × (x ≡ inr e))
  reply-cases (inl d) = inl (d, refl)
  reply-cases (inr e) = inr (e, refl)

  -- A response that suits the request came with one of the first `n` attempts.
  abbrev pub CameWith : ℕ → List Attempt → Response → Type 0
  CameWith n attempts r =
      (i : ℕ) × (a : Attempt) × (datagram : Bytes) × (i < n)
      × (get_elem? attempts i ≡ some a)
      × (a.reply ≡ inl datagram)
      × (decode_response json (take 1024 datagram) ≡ ok r)
      × (validate_for r req ≡ none)

  attempt_loop-CameWith :
      (n : ℕ) (attempts : List Attempt) (sent : ℕ) (r : Response)
      → (attempt_loop json n req attempts sent).0 ≡ answered r
      → CameWith n attempts r
  unfolding attempt_loop
  attempt_loop-CameWith zero attempts sent r h = cc
  attempt_loop-CameWith (suc n) [] sent r h = cc
  attempt_loop-CameWith (suc n) (a ∷ attempts) sent r h = elim (Option-cases a.write_failure) [
    | inr (e, failed) ↦
        let wrong : write_failed e ≡ answered r = rw (failed, attempt_loop) at h in cc
    | inl written ↦ elim (Option-cases a.deadline_failure) [
      | inr (e, failed) ↦
          let wrong : deadline_failed e ≡ answered r = rw (written, failed, attempt_loop) at h in cc
      | inl limited ↦ elim (reply-cases a.reply) [
        | inl (d, came) ↦
            let got : conclude_reply json req d ≡ answered r =
              rw (written, limited, came, attempt_loop) at h in
            let (decoded, suits) = conclude_reply-eq-answered d r got in
            (0, a, d, omega arith, refl, came, decoded, suits)
        | inr (e, late) ↦
            let rest : (attempt_loop json n req attempts (sent + 1)).0 ≡ answered r =
              rw (written, limited, late, attempt_loop) at h in
            let (i, b, d, less, there, came, decoded, suits) =
              attempt_loop-CameWith n attempts (sent + 1) r rest in
            (suc i, b, d, omega arith, there, came, decoded, suits)
      ]
    ]
  ]

  -- A response that the client prints was decoded from a datagram that came with one of its two
  -- attempts, and passes `ValidateFor` for the request.
  pub run_client-CameWith :
      (attempts : List Attempt) (r : Response)
      → (run_client json req attempts).0 ≡ answered r
      → CameWith 2 attempts r
  unfolding run_client
  run_client-CameWith attempts r h = attempt_loop-CameWith 2 attempts 0 r h
