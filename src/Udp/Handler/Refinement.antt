-- ===== src/Udp/Handler/Refinement.antt =====
-- The server of udp/protocol against a description that has no map: the response to a request is made
-- by the first packet with the same sender and ID.
use go_network_lab.Base.{
  ◌≡◌, refl, sym, ap, subst, ◌∙◌, inl, inr, if◌then◌else◌, List, [], ◌∷◌, ◌++◌, Option, none, some,
  Bytes, Bool-cases, Option-cases, Outcome, Outcome-cases, ok, take, append_assoc, append-nil,
}
use mathlib.Core.Path.{ap₂}
use go_network_lab.Udp.Message.{Request, Response, Json, decode_request, encode_response}
use go_network_lab.Udp.Handler.{
  RequestKey, same_key, Processed, lookup, insert, respond, handle_request, handle, Packet,
  serve_one, serve,
}
use go_network_lab.Udp.Handler.Map.{lookup-insert, lookup-insert-if, same_key-eq}

abbrev value_of : {E A : Type 0} → Outcome E A → Option A
value_of (ok a) = some a
value_of _ = none

module _ (json : Json) where
  -- The request in a packet, if it has a valid one.
  abbrev pub request_of : Packet json → Option Request
  request_of p = value_of (decode_request json (take 1024 p.bytes))

  abbrev key_of : Packet json → Request → RequestKey
  key_of p req = record { addr = p.addr; id = req.id }

  -- The response of a packet under a key, or that of a later one.
  abbrev pub answer_or :
      RequestKey → Packet json → Option Request → Option Response → Option Response
  answer_or k p none later = later
  answer_or k p (some req) later =
      if same_key (key_of p req) k then some (respond req p.now) else later

  -- What the first packet with a request under this key is answered.
  unfoldable pub first_answer : RequestKey → List (Packet json) → Option Response
  first_answer k [] = none
  first_answer k (p ∷ ps) = answer_or k p (request_of p) (first_answer k ps)

  abbrev datagram : Packet json → Option Response → List (Bytes × Bytes)
  datagram p none = []
  datagram p (some r) = (p.addr, encode_response json r) ∷ []

  -- What is sent for a packet after others: to its sender, the first answer under its key.
  abbrev pub replies_to : List (Packet json) → Packet json → Option Request → List (Bytes × Bytes)
  replies_to before p none = []
  replies_to before p (some req) = datagram p (first_answer (key_of p req) (before ++ p ∷ []))

  unfoldable pub all_replies : List (Packet json) → List (Packet json) → List (Bytes × Bytes)
  unfolding first_answer
  all_replies before [] = []
  all_replies before (p ∷ ps) =
      replies_to before p (request_of p) ++ all_replies (before ++ p ∷ []) ps

  -- The map has the first answers.
  abbrev Abstracts : Processed → List (Packet json) → Type 0
  Abstracts m before = (k : RequestKey) → lookup k m ≡ first_answer k before

  or_else : Option Response → Option Response → Option Response
  or_else none o = o
  or_else (some r) o = some r

  or_else-none : (o : Option Response) → or_else o none ≡ o
  unfolding or_else
  or_else-none none = refl
  or_else-none (some r) = refl

  answer_or-or_else :
      (k : RequestKey) (q : Packet json) (o : Option Request) (x y : Option Response)
      → answer_or k q o (or_else x y) ≡ or_else (answer_or k q o x) y
  unfolding or_else
  answer_or-or_else k q none x y = refl
  answer_or-or_else k q (some req) x y = elim (Bool-cases (same_key (key_of q req) k)) [
    | inl e ↦ rw e refl
    | inr e ↦ rw e refl
  ]

  first_answer-append :
      (k : RequestKey) (before : List (Packet json)) (p : Packet json)
      → first_answer k (before ++ p ∷ [])
        ≡ or_else (first_answer k before) (answer_or k p (request_of p) none)
  unfolding first_answer or_else
  first_answer-append k [] p = refl
  first_answer-append k (q ∷ before) p =
      ap (answer_or k q (request_of q)) (first_answer-append k before p)
      ∙ answer_or-or_else k q (request_of q) (first_answer k before)
          (answer_or k p (request_of p) none)

  -- A packet without a request changes no answer.
  keeps_answers :
      (m : Processed) (before : List (Packet json)) (p : Packet json)
      → request_of p ≡ none
      → Abstracts m before
      → Abstracts m (before ++ p ∷ [])
  keeps_answers m before p e h k =
      h k
      ∙ sym (or_else-none (first_answer k before))
      ∙ ap (λ o. or_else (first_answer k before) (answer_or k p o none)) (sym e)
      ∙ sym (first_answer-append k before p)

  -- A request under a key that is new sets its answer.
  new_answer :
      (m : Processed) (before : List (Packet json)) (p : Packet json) (req : Request)
      → request_of p ≡ some req
      → lookup (key_of p req) m ≡ none
      → Abstracts m before
      → Abstracts (insert (key_of p req) (respond req p.now) m) (before ++ p ∷ [])
  unfolding or_else
  new_answer m before p req e new h k =
      lookup-insert-if (key_of p req) k (respond req p.now) m
      ∙ elim (Bool-cases (same_key (key_of p req) k)) [
        | inl s ↦
            let moved = subst (λ x. lookup x m ≡ none) (same_key-eq (key_of p req) k s) new in
            let nothing : first_answer k before ≡ none = sym (h k) ∙ moved in rw (s, nothing) refl
        | inr s ↦ rw s (h k ∙ sym (or_else-none (first_answer k before)))
      ]
      ∙ ap (λ o. or_else (first_answer k before) (answer_or k p o none)) (sym e)
      ∙ sym (first_answer-append k before p)

  -- A request under a key that has an answer sets none.
  old_answer :
      (m : Processed) (before : List (Packet json)) (p : Packet json) (req : Request) (r : Response)
      → request_of p ≡ some req
      → lookup (key_of p req) m ≡ some r
      → Abstracts m before
      → Abstracts m (before ++ p ∷ [])
  unfolding or_else
  old_answer m before p req r e found h k =
      h k
      ∙ elim (Bool-cases (same_key (key_of p req) k)) [
        | inl s ↦
            let moved = subst (λ x. lookup x m ≡ some r) (same_key-eq (key_of p req) k s) found in
            let had : first_answer k before ≡ some r = sym (h k) ∙ moved in rw (s, had) refl
        | inr s ↦ rw s (sym (or_else-none (first_answer k before)))
      ]
      ∙ ap (λ o. or_else (first_answer k before) (answer_or k p o none)) (sym e)
      ∙ sym (first_answer-append k before p)

  abbrev sent_list : Option (Bytes × Bytes) → List (Bytes × Bytes)
  sent_list none = []
  sent_list (some d) = d ∷ []

  -- One round of the server, which keeps to the description.
  abbrev Follows : List (Packet json) → Packet json → Processed × Option (Bytes × Bytes) → Type 0
  Follows before p (m, sent) =
      Abstracts m (before ++ p ∷ []) × (sent_list sent ≡ replies_to before p (request_of p))

  serve_one-Follows :
      (m : Processed) (before : List (Packet json)) (p : Packet json)
      → Abstracts m before
      → Follows before p (serve_one json m p)
  unfolding serve_one handle handle_request
  serve_one-Follows m before p h = elim (Outcome-cases (decode_request json (take 1024 p.bytes))) [
    | inr (inl (x, e)) ↦
        rw (e, serve_one, handle) (keeps_answers m before p (ap value_of e) h, refl)
    | inr (inr (inl e)) ↦
        rw (e, serve_one, handle) (keeps_answers m before p (ap value_of e) h, refl)
    | inr (inr (inr e)) ↦
        rw (e, serve_one, handle) (keeps_answers m before p (ap value_of e) h, refl)
    | inl (req, e) ↦
        let key = key_of p req in
        let asked : request_of p ≡ some req = ap value_of e in
        elim (Option-cases (lookup key m)) [
          | inl new ↦
              let abs = new_answer m before p req asked new h in
              let first = sym (lookup-insert key (respond req p.now) m) ∙ abs key in
              rw (e, serve_one, handle, new, handle_request) (abs, ap (datagram p) first)
          | inr (r, found) ↦
              let abs = old_answer m before p req r asked found h in
              let first = sym found ∙ abs key in
              rw (e, serve_one, handle, found, handle_request) (abs, ap (datagram p) first)
        ]
  ]

  joined :
      (d : Option (Bytes × Bytes)) (later : List (Bytes × Bytes))
      → elim d [ some x ↦ x ∷ later | none ↦ later ] ≡ sent_list d ++ later
  joined none later = refl
  joined (some x) later = refl

  serve_from :
      (m : Processed) (before ps : List (Packet json))
      → Abstracts m before
      → ((serve json m ps).1 ≡ all_replies before ps) × Abstracts (serve json m ps).0 (before ++ ps)
  unfolding serve all_replies
  serve_from m before [] h = (refl, λ k. h k ∙ ap (first_answer k) (sym (append-nil before)))
  serve_from m before (p ∷ ps) h =
      let (abs, sent) = serve_one-Follows m before p h in
      let (later, last) = serve_from ((serve_one json m p).0) (before ++ p ∷ []) ps abs in
      (
        joined ((serve_one json m p).1) _ ∙ ap₂ ◌++◌ sent later,
        λ k. last k ∙ ap (first_answer k) (append_assoc before (p ∷ []) ps),
      )

  -- The server with its map sends exactly the datagrams of the description without one: for each
  -- packet with a valid request, in order, to its sender the response that was made by the first
  -- packet of this sender with this ID. Afterwards the map has these responses, and no others.
  pub serve-all_replies :
      (packets : List (Packet json))
      → ((serve json [] packets).1 ≡ all_replies [] packets)
        × ((k : RequestKey) → lookup k (serve json [] packets).0 ≡ first_answer k packets)
  unfolding lookup first_answer
  serve-all_replies packets = serve_from [] [] packets λ k. refl
