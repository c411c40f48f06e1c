-- ===== src/Dns/Lookup/Provenance.antt =====
-- Where the addresses that `LookupA` returns come from.
use go_network_lab.Base.{
  ℕ, ◌≡◌, refl, ap, ◌∙◌, ◌⊎◌, inl, inr, false, List, [], ◌∷◌, none, arith, Bytes, Bool-cases,
  Option-cases, Outcome, ok, err, panic, stuck, >>=-eq-ok, wrap_err, wrap_err-eq-ok,
}
use go_network_lab.Dns.Message.{Question, Message, Error}
use go_network_lab.Dns.Encode.{encode_query}
use go_network_lab.Dns.Decode.{decode_message, is_truncated}
use go_network_lab.Dns.Validate.{validate_response, validate_rcode}
use go_network_lab.Dns.Validate.Meaning.{Answers, validate_response_iff}
use go_network_lab.Dns.Extract.{extract_a_records}
use go_network_lab.Dns.Extract.Meaning.{Addresses, Extracted, extract_a_records-Extracted}
use go_network_lab.Dns.Tcp.{check, TcpNetwork, exchange_tcp}
use go_network_lab.Dns.Lookup.{
  LookupError, lookup_context, rand_failed, encode_failed, tcp_fallback, decode_tcp_failed,
  validate_tcp_failed, conclude, fall_back, Verdict, skip, answer, has_id, accept, judge_message,
  judge_decoded, judge, datagram, Round, receive, lookup_loop, World, question_for, lookup_a,
}

-- A datagram that one of the rounds delivers.
pub data Delivered (packet : Bytes) : List Round → Type 0 where
  this_round :
      {r : Round} {rs : List Round} → r.received ≡ datagram packet → Delivered packet (r ∷ rs)
  later_round : {r : Round} {rs : List Round} → Delivered packet rs → Delivered packet (r ∷ rs)

-- The message `m` is decoded from what the server sent, over UDP or as the response over TCP.
pub data Source (tcp : TcpNetwork) (query : Bytes) (rounds : List Round) (m : Message)
    : Type 0 where
  over_udp :
      (packet : Bytes)
      → Delivered packet rounds
      → decode_message packet ≡ ok m
      → Source tcp query rounds m
  over_tcp :
      (response : Bytes)
      → exchange_tcp tcp query ≡ ok response
      → decode_message response ≡ ok m
      → Source tcp query rounds m

Source-later :
    {tcp : TcpNetwork} {query : Bytes} (r : Round) {rs : List Round} {m : Message}
    → Source tcp query rs m
    → Source tcp query (r ∷ rs) m
Source-later r (over_udp packet here d) = over_udp packet (later_round here) d
Source-later r (over_tcp response e d) = over_tcp response e d

-- The addresses are those of a complete, successful answer to the query.
pub record Good (id : ℕ) (q : Question) (m : Message) (found : List Bytes) : Type 0 where
  pub answers_query : Answers m id q
  pub whole : is_truncated m.header.flags ≡ false
  pub no_error : validate_rcode m ≡ none
  pub addresses : Addresses q m.answers found

Verdict-cases :
    (v : Verdict) → (v ≡ skip) ⊎ ((r : Outcome LookupError (List Bytes)) × (v ≡ answer r))
Verdict-cases skip = inl refl
Verdict-cases (answer r) = inr (r, refl)

module _ (name : Bytes) where
  conclude-eq-ok :
      (m : Message) {found : List Bytes}
      → conclude m (question_for name) ≡ ok found
      → (validate_rcode m ≡ none) × Addresses (question_for name) m.answers found
  unfolding conclude
  conclude-eq-ok m {found} h = elim (Option-cases (validate_rcode m)) [
    | inr (code, e) ↦ absurd (ground arith)
    | inl e ↦
        let extracted : extract_a_records m (question_for name) ≡ ok found = ground arith in
        let (all, same, listed) : Extracted (question_for name) 0 m.answers [] (ok found) =
          rw extracted at (extract_a_records-Extracted m (question_for name) refl refl) in
        (e, rw same listed)
  ]

module _ (tcp : TcpNetwork) (query : Bytes) (id : ℕ) (name : Bytes) (found : List Bytes) where
  -- What is shown of each result.
  abbrev Traced : List Round → Type 0
  Traced rounds = (m : Message) × Source tcp query rounds m × Good id (question_for name) m found

  fall_back-Traced :
      (rounds : List Round) → fall_back tcp query id (question_for name) ≡ ok found → Traced rounds
  unfolding fall_back
  fall_back-Traced rounds h =
      let (response, e, h1) = >>=-eq-ok (wrap_err tcp_fallback (exchange_tcp tcp query)) _ h in
      let (m, d, h2) = >>=-eq-ok (wrap_err decode_tcp_failed (decode_message response)) _ h1 in
      let (u, v, h3) =
        >>=-eq-ok (wrap_err validate_tcp_failed (validate_response m id (question_for name))) _
          h2 in
      let whole : is_truncated m.header.flags ≡ false = ground arith in
      let concluded : conclude m (question_for name) ≡ ok found = ground arith in
      let (no_error, listed) = conclude-eq-ok name m concluded in
      (
        m,
        over_tcp response (wrap_err-eq-ok tcp_fallback (exchange_tcp tcp query) e)
            (wrap_err-eq-ok decode_tcp_failed (decode_message response) d),
        record {
          answers_query =
              (validate_response_iff m id (question_for name)).0
                (wrap_err-eq-ok validate_tcp_failed (validate_response m id (question_for name)) v);
          whole = whole;
          no_error = no_error;
          addresses = listed;
        },
      )

  accept-Traced :
      (rounds : List Round) (packet : Bytes) (m : Message)
      → Delivered packet rounds
      → decode_message packet ≡ ok m
      → validate_response m id (question_for name) ≡ ok tt
      → accept tcp query id (question_for name) m ≡ ok found
      → Traced rounds
  unfolding accept
  accept-Traced rounds packet m here d v h = elim (Bool-cases (is_truncated m.header.flags)) [
    | inl cut ↦ fall_back-Traced rounds (rw cut at h)
    | inr whole ↦
        let (no_error, listed) = conclude-eq-ok name m (rw whole at h) in
        (
          m,
          over_udp packet here d,
          record {
            answers_query = (validate_response_iff m id (question_for name)).0 v;
            whole = whole;
            no_error = no_error;
            addresses = listed;
          },
        )
  ]

  judge_message-answer :
      (m : Message)
      → judge_message tcp query id (question_for name) m ≡ answer (ok found)
      → (validate_response m id (question_for name) ≡ ok tt)
        × (accept tcp query id (question_for name) m ≡ ok found)
  unfolding judge_message
  judge_message-answer m h = (ground arith, ground arith)

  judge_decoded-answer :
      (decoded : Outcome Error Message)
      → judge_decoded tcp query id (question_for name) decoded ≡ answer (ok found)
      → (m : Message) × (decoded ≡ ok m)
        × (judge_message tcp query id (question_for name) m ≡ answer (ok found))
  unfolding judge_decoded
  judge_decoded-answer (ok m) h = (m, refl, h)
  judge_decoded-answer (err e) h = absurd (ground arith)
  judge_decoded-answer panic h = absurd (ground arith)
  judge_decoded-answer stuck h = absurd (ground arith)

  judge-Traced :
      (rounds : List Round) (packet : Bytes)
      → Delivered packet rounds
      → judge tcp query id (question_for name) packet ≡ answer (ok found)
      → Traced rounds
  unfolding judge
  judge-Traced rounds packet here h = elim (Bool-cases (has_id packet id)) [
    | inr other ↦ absurd (ground arith)
    | inl same ↦
        let (m, d, judged) = judge_decoded-answer (decode_message packet) (ground arith) in
        let (v, a) = judge_message-answer m judged in accept-Traced rounds packet m here d v a
  ]

  receive-eq-ok :
      (r : Round) {packet : Bytes} → receive r ≡ ok packet → r.received ≡ datagram packet
  unfolding receive
  receive-eq-ok r h = ground arith

  lookup_loop-Traced :
      (rounds : List Round)
      → lookup_loop tcp query id (question_for name) rounds ≡ ok found
      → Traced rounds
  unfolding lookup_loop
  lookup_loop-Traced [] h = absurd (ground arith)
  lookup_loop-Traced (r ∷ rs) h =
      let (packet, got, h1) = >>=-eq-ok (receive r) _ h in
      elim (Verdict-cases (judge tcp query id (question_for name) packet)) [
        | inl skipped ↦
            let (m, source, good) = lookup_loop-Traced rs (ground arith) in
            (m, Source-later r source, good)
        | inr (result, answered) ↦
            let returned : result ≡ ok found = ground arith in
            judge-Traced (r ∷ rs) packet (this_round (receive-eq-ok r got))
              (answered ∙ ap answer returned)
      ]

-- The lookup's query: the transaction ID that was drawn, and its encoding.
pub record Asked (w : World) (name : Bytes) : Type 0 where
  pub id : ℕ
  pub query : Bytes
  pub drawn : w.random ≡ ok id
  pub encoded : encode_query id (question_for name) ≡ ok query

-- Whatever the network does, if `LookupA` returns addresses, then they are the A/IN addresses of
-- a message that was decoded from a datagram of the UDP socket or from the response of the TCP
-- fallback, that answers the query with the transaction ID drawn for it, is not truncated, and
-- has no error code.
pub lookup_a-Traced :
    (w : World) (name : Bytes) (found : List Bytes)
    → lookup_a w name ≡ ok found
    → (a : Asked w name) × (m : Message) × Source w.tcp a.query w.rounds m
      × Good a.id (question_for name) m found
unfolding lookup_a
lookup_a-Traced w name found h =
    let (u, e1, h1) = >>=-eq-ok (check lookup_context w.context_first) _ h in
    let (id, drawn, h2) = >>=-eq-ok (wrap_err rand_failed w.random) _ h1 in
    let (query, encoded, h3) =
      >>=-eq-ok (wrap_err encode_failed (encode_query id (question_for name))) _ h2 in
    let looped : lookup_loop w.tcp query id (question_for name) w.rounds ≡ ok found =
      ground arith in
    let (m, source, good) = lookup_loop-Traced w.tcp query id name found w.rounds looped in
    (
      record {
        id = id;
        query = query;
        drawn = wrap_err-eq-ok rand_failed w.random drawn;
        encoded = wrap_err-eq-ok encode_failed (encode_query id (question_for name)) encoded;
      },
      m,
      source,
      good,
    )
