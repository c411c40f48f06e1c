-- ===== src/Dns/Tcp/Exchange.antt =====
-- DNS over TCP: the payload that is returned, and the frame that is sent.
use go_network_lab.Base.{
  ℕ, ◌+◌, ◌*◌, ◌%◌, ◌≤◌, ◌<◌, ◌≡◌, ◌≢◌, refl, sym, ap, ◌∙◌, ◌↔◌, inl, inr, false, List, [], ◌∷◌,
  ◌++◌, none, arith, Bytes, length, length-append, take, drop, leb, ltb, take-append,
  take-append-drop, length-take, Bool-cases, u16_mod, put_uint16, uint16, Outcome, ok, err, panic,
  stuck,
}
use go_network_lab.Base.Io.{IoError, Stream, read_full, WriteResult, write_full}
use go_network_lab.Base.Io.Reading.{to_come, read_full_enough, read_full_short}
use go_network_lab.Base.Io.Writing.{Sends, write_full-Sends, Accepts, write_full-Accepts}
use go_network_lab.Dns.Tcp.{
  TcpConn, flatten_error, tcp_frame, read_payload, read_response, exchange_tcp_conn,
}

-- The connection delivers `response` behind its length, and the context stays valid. `following`
-- is what the server sends after it.
pub record Delivers (c : TcpConn) (response : Bytes) : Type 0 where
  pub high : ℕ
  pub low : ℕ
  pub following : Bytes
  pub delivered : to_come c.incoming ≡ high ∷ low ∷ (response ++ following)
  pub prefix : high * 256 + low ≡ length response
  pub long_enough : 12 ≤ length response
  pub still_valid : c.context_after ≡ none

read_response-from :
    (c : TcpConn) (response : Bytes) → Delivers c response → read_response c ≡ ok response
unfolding read_response uint16
read_response-from c response d =
    let (rest, read, left, f) = read_full_enough 2 c.incoming (rw d.delivered (omega arith)) in
    let tail : to_come rest ≡ response ++ d.following = left ∙ ap (drop 2) d.delivered in
    let read2 : read_full 2 c.incoming ≡ (ok (d.high ∷ d.low ∷ []), rest) =
      rw d.delivered at read in
    let (rest', body, left', f') =
      read_full_enough (length response) rest
        (rw tail (omega (arith, length-append {0} response d.following))) in
    let got : read_full (length response) rest ≡ (ok response, rest') =
      rw (tail, take-append response d.following) at body in
    let long : ltb (length response) 12 ≡ false = ground (arith, d.long_enough) in
    rw (read2, read_response) (rw (d.prefix, long, got, d.still_valid) refl)

two_bytes :
    (bs : Bytes) → 2 ≤ length bs → (hi : ℕ) × (lo : ℕ) × (tail : Bytes) × (bs ≡ hi ∷ lo ∷ tail)
two_bytes [] h = absurd (omega arith)
two_bytes (a ∷ []) h = absurd (omega arith)
two_bytes (a ∷ b ∷ tail) h = (a, b, tail, refl)

read_payload-eq-ok :
    (c : TcpConn) (size : ℕ) (s : Stream) {response : Bytes}
    → read_payload c size s ≡ ok response
    → (12 ≤ size)
      × (size ≤ length (to_come s))
      × (response ≡ take size (to_come s))
      × (c.context_after ≡ none)
unfolding read_payload
read_payload-eq-ok c size s h = elim (Bool-cases (leb size (length (to_come s)))) [
  | inl enough ↦ let (rest, read, left, f) = read_full_enough size s (ground arith) in ground arith
  | inr short ↦ absurd (ground (arith, read_full_short size s))
]

read_response-payload :
    (c : TcpConn) (rest : Stream) (hi lo : ℕ)
    → read_full 2 c.incoming ≡ (ok (hi ∷ lo ∷ []), rest)
    → read_response c ≡ read_payload c (hi * 256 + lo) rest
unfolding read_response uint16
read_response-payload c rest hi lo e = rw (e, read_response)

Delivers-payload :
    (c : TcpConn) (response tail : Bytes) (rest : Stream) (hi lo : ℕ)
    → to_come c.incoming ≡ hi ∷ lo ∷ tail
    → to_come rest ≡ tail
    → read_payload c (hi * 256 + lo) rest ≡ ok response
    → Delivers c response
Delivers-payload c response tail rest hi lo bytes left h =
    let (long, within, is_take, valid) = read_payload-eq-ok c (hi * 256 + lo) rest h in
    let size = length-take (hi * 256 + lo) (to_come rest) in
    let counted : hi * 256 + lo ≡ length response = rw is_take (omega arith) in
    record {
      high = hi;
      low = lo;
      following = drop (hi * 256 + lo) tail;
      delivered = rw (is_take, left, take-append-drop) bytes;
      prefix = counted;
      long_enough = omega arith;
      still_valid = valid;
    }

module _ (c : TcpConn) (response : Bytes) where
  read_response-cut : length (to_come c.incoming) < 2 → read_response c ≢ ok response
  unfolding read_response
  read_response-cut short h = ground (arith, read_full_short 2 c.incoming short)

  read_response-whole :
      (hi lo : ℕ) (tail : Bytes)
      → to_come c.incoming ≡ hi ∷ lo ∷ tail
      → read_response c ≡ ok response
      → Delivers c response
  read_response-whole hi lo tail bytes h =
      let (rest, read, left, f) = read_full_enough 2 c.incoming (rw bytes (omega arith)) in
      let read2 : read_full 2 c.incoming ≡ (ok (hi ∷ lo ∷ []), rest) = rw bytes at read in
      Delivers-payload c response tail rest hi lo bytes (left ∙ ap (drop 2) bytes)
        (sym (read_response-payload c rest hi lo read2) ∙ h)

  read_response-to : read_response c ≡ ok response → Delivers c response
  read_response-to h = elim (Bool-cases (ltb (length (to_come c.incoming)) 2)) [
    | inl short ↦ absurd (read_response-cut (ground arith) h)
    | inr enough ↦
        let (hi, lo, tail, bytes) = two_bytes (to_come c.incoming) (ground arith) in
        read_response-whole hi lo tail bytes h
  ]

-- The response that is returned is the payload of the first frame that the server sends, with a
-- length of at least 12; and such a payload is returned, in however many pieces it arrives.
pub read_response_iff :
    (c : TcpConn) (response : Bytes) → (read_response c ≡ ok response) ↔ Delivers c response
read_response_iff c response = (read_response-to c response, read_response-from c response)

tcp_frame_lem :
    (query : Bytes) → length query ≤ 65535 → tcp_frame query ≡ put_uint16 (length query) ++ query
tcp_frame_lem query h =
    let e : length query % u16_mod ≡ length query = omega arith in
    ap (λ (n : ℕ). put_uint16 n ++ query) e

Sends-ok :
    (bytes : Bytes) (r : Outcome IoError (Unit {0}) × Bytes × List WriteResult)
    → Sends bytes [] r
    → r.0 ≡ ok tt
    → r.1 ≡ bytes
Sends-ok bytes (ok u, sent, plan) h e = h
Sends-ok bytes (err x, sent, plan) h e = cc
Sends-ok bytes (panic, sent, plan) h e = cc
Sends-ok bytes (stuck, sent, plan) h e = cc

-- A response is returned only after the whole query was sent behind its true length, and it is the
-- payload of the first frame that came back.
pub exchange_tcp_conn-eq-ok :
    (c : TcpConn) (query response : Bytes)
    → exchange_tcp_conn c query ≡ ok response
    → ((write_full (tcp_frame query) c.writes []).1 ≡ put_uint16 (length query) ++ query)
      × Delivers c response
unfolding exchange_tcp_conn
exchange_tcp_conn-eq-ok c query response h =
    let short : length query ≤ 65535 = ground arith in
    let written : (write_full (tcp_frame query) c.writes []).0 ≡ ok tt = ground arith in
    let answered : read_response c ≡ ok response = ground arith in
    (
      Sends-ok (tcp_frame query) (write_full (tcp_frame query) c.writes [])
            (write_full-Sends (tcp_frame query) c.writes []) written
          ∙ tcp_frame_lem query short,
      read_response-to c response answered,
    )

-- On a connection that takes the frame and delivers a response, the exchange returns it.
pub exchange_tcp_conn-Delivers :
    (c : TcpConn) (query response : Bytes)
    → length query ≤ 65535
    → c.context_before ≡ none
    → flatten_error c.deadline ≡ none
    → Accepts (2 + length query) c.writes
    → Delivers c response
    → exchange_tcp_conn c query ≡ ok response
unfolding exchange_tcp_conn
exchange_tcp_conn-Delivers c query response short valid deadline accepts d =
    let frame : Accepts (length (tcp_frame query)) c.writes =
      let e : 2 + length query ≡ length (tcp_frame query) = omega arith in rw e at accepts in
    let (rest, written) = write_full-Accepts (tcp_frame query) c.writes [] frame in
    ground (arith, read_response-from c response d)
