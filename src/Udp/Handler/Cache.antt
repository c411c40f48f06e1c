-- ===== src/Udp/Handler/Cache.antt =====
-- What the map of processed requests is good for.
use go_network_lab.Base.{
  ◌≡◌, refl, ◌⊎◌, inl, inr, Bool, true, List, [], ◌∷◌, none, some, Bytes, Outcome, ok, err, panic,
  stuck, Option-cases, arith, length, take, ◌≤◌, take_all,
}
use go_network_lab.Udp.Message.{
  Request, Response, Json, DecodeError, malformed, refused, validate, validate_for, decode_request,
  encode_request, decode_response, encode_response, PlainRequest, PlainResponse,
}
use go_network_lab.Base.{All}
use go_network_lab.Base.Utf8.{valid_utf8}
use go_network_lab.Udp.Handler.{Processed, lookup, handle_request, handle, Packet, serve_one, serve}
use go_network_lab.Udp.Handler.Answers.{
  Keeps, IsStatus-valid, Fair, Sound, validate_for_lem, handle_request-After,
}

module _ (json : Json) where
  -- `handle` on the bytes of one datagram, the errors included.
  abbrev AfterHandle :
      Processed
      → Bytes
      → Bytes
      → Bytes
      → Processed × Outcome (DecodeError json.JsonError) (Response × Bool)
      → Type 0
  AfterHandle m now addr bytes (m', ok (r, dup)) =
      (req : Request) × (decode_request json bytes ≡ ok req)
      × (lookup (record { addr = addr; id = req.id }) m' ≡ some r)
      × Keeps m m'
      × (valid_utf8 now ≡ true → Sound m → Sound m' × (r.id ≡ req.id) × Fair r)
  AfterHandle m now addr bytes (m', err e) = (m' ≡ m) × (decode_request json bytes ≡ err e)
  AfterHandle m now addr bytes (m', panic) = ⊥
  AfterHandle m now addr bytes (m', stuck) = ⊥

  decode_request-cases :
      (bytes : Bytes)
      → ((req : Request) × (decode_request json bytes ≡ ok req) × (validate req ≡ none))
        ⊎ ((e : DecodeError json.JsonError) × (decode_request json bytes ≡ err e))
  unfolding decode_request
  decode_request-cases bytes = go (json.unmarshal_request bytes) refl
    where
      go :
          (x : Request ⊎ json.JsonError)
          → json.unmarshal_request bytes ≡ x
          → ((req : Request) × (decode_request json bytes ≡ ok req) × (validate req ≡ none))
            ⊎ ((e : DecodeError json.JsonError) × (decode_request json bytes ≡ err e))
      go (inr e) read = inr (malformed e, rw (read, decode_request) refl)
      go (inl req) read = elim (Option-cases (validate req)) [
        | inl fine ↦ inl (req, rw (read, fine, decode_request) refl, fine)
        | inr (e, bad) ↦ inr (refused e, rw (read, bad, decode_request) refl)
      ]

  handle-After :
      (m : Processed) (now addr bytes : Bytes)
      → AfterHandle m now addr bytes (handle json m now addr bytes)
  unfolding handle
  handle-After m now addr bytes = elim (decode_request-cases bytes) [
    | inl (req, read, fine) ↦
        rw (read, handle)
          (let (found, keeps, answers) = handle_request-After m now addr req in
            (req, read, found, keeps, answers))
    | inr (e, bad) ↦ rw (bad, handle) (refl, bad)
  ]

  serve_one-After :
      (m : Processed) (p : Packet json)
      → Keeps m (serve_one json m p).0
        × (valid_utf8 p.now ≡ true → Sound m → Sound (serve_one json m p).0)
  unfolding serve_one
  serve_one-After m p =
      go (handle json m p.now p.addr (take 1024 p.bytes))
        (handle-After m p.now p.addr (take 1024 p.bytes))
    where
      go :
          (x : Processed × Outcome (DecodeError json.JsonError) (Response × Bool))
          → AfterHandle m p.now p.addr (take 1024 p.bytes) x
          → Keeps m x.0 × (valid_utf8 p.now ≡ true → Sound m → Sound x.0)
      go (m', ok (r, dup)) (req, read, found, keeps, answers) =
          (keeps, λ valid sound. (answers valid sound).0)
      go (m', err e) (same, bad) = ((λ k r found. rw same found), λ valid sound. rw same sound)
      go (m', panic) h = absurd h
      go (m', stuck) h = absurd h

  serve-After :
      (m : Processed) (ps : List (Packet json))
      → Keeps m (serve json m ps).0
        × (All (λ p. valid_utf8 p.now ≡ true) ps → Sound m → Sound (serve json m ps).0)
  unfolding serve
  serve-After m [] = ((λ k r found. found), λ _ sound. sound)
  serve-After m (p ∷ ps) =
      let (keeps, sound) = serve_one-After m p in
      let (keeps', sound') = serve-After (serve_one json m p).0 ps in
      ((λ k r found. keeps' k r (keeps k r found)), λ (v, valid) s. sound' valid (sound v s))

  -- When a datagram from an address got a response, then the same datagram from there gets the same
  -- response at any later time, whatever packets the server has handled in between, and the map is
  -- not changed by it.
  pub handle-replayed :
      (m m' : Processed) (now addr bytes : Bytes) (r : Response) (dup : Bool)
      → handle json m now addr bytes ≡ (m', ok (r, dup))
      → (between : List (Packet json)) (later : Bytes)
      → handle json (serve json m' between).0 later addr bytes
        ≡ ((serve json m' between).0, ok (r, true))
  unfolding handle handle_request
  handle-replayed m m' now addr bytes r dup handled between later =
      let (req, read, found, _, _) : AfterHandle m now addr bytes (m', ok (r, dup)) =
        rw handled at (handle-After m now addr bytes) in
      let kept = (serve-After m' between).0 (record { addr = addr; id = req.id }) r found in
      rw (read, handle, kept, handle_request) refl

  decode_request-encode_request :
      (req : Request)
      → PlainRequest req
      → validate req ≡ none
      → decode_request json (encode_request json req) ≡ ok req
  unfolding decode_request encode_request
  decode_request-encode_request req plain fine =
      rw (json.request_restored req plain, fine, decode_request) refl

  pub decode_response-encode_response :
      (r : Response) → PlainResponse r → decode_response json (encode_response json r) ≡ ok r
  unfolding decode_response encode_response
  decode_response-encode_response r plain =
      rw (json.response_restored r plain, decode_response) refl

  -- After any packets, a valid request of valid UTF-8 that fits into the buffer is answered to its
  -- sender: the datagram sent decodes to a response that passes `ValidateFor` for the request. The
  -- clock's texts are valid UTF-8.
  pub serve_one-answers :
      (before : List (Packet json)) (now addr : Bytes) (req : Request)
      → All (λ p. valid_utf8 p.now ≡ true) before
      → valid_utf8 now ≡ true
      → PlainRequest req
      → validate req ≡ none
      → length (encode_request json req) ≤ 1024
      → (r : Response) × ((serve_one json
            (serve json [] before).0
            (record { addr = addr; bytes = encode_request json req; now = now })).1
          ≡ some (addr, encode_response json r))
        × (decode_response json (encode_response json r) ≡ ok r)
        × (validate_for r req ≡ none)
  unfolding serve_one handle
  serve_one-answers before now addr req clocks clock plain fine fits =
      let m = (serve json [] before).0 in
      let sound = (serve-After [] before).1 clocks tt in
      let (found, keeps, answers) = handle_request-After m now addr req in
      let (_, same, (status, payload)) = answers clock sound in
      let whole = take_all 1024 (encode_request json req) fits in
      let read = decode_request-encode_request req plain fine in
      let (m', r, dup) = handle_request m now addr req in
      let handled : handle json m now addr (take 1024 (encode_request json req))
          ≡ (m', ok (r, dup)) =
        rw whole (rw (read, handle) refl) in
      (
        r,
        rw (handled, serve_one) refl,
        decode_response-encode_response r (omega arith, IsStatus-valid r.status status, payload),
        validate_for_lem r req fine same status,
      )
