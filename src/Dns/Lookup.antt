-- ===== src/Dns/Lookup.antt =====
-- internal/dns/lookup.go. The context, the random source and the network are scripts: what each
-- call on them returns, in the order of the calls.
pub mod Provenance
pub mod Noise
use go_network_lab.Base.{
  ℕ, ◌+◌, ◌*◌, Bool, false, not, List, [], ◌∷◌, Option, none, some, Bytes, ◌==◌, if◌then◌else◌,
  Outcome, ok, err, panic, stuck, ◌>>=◌, ◌>>◌, fail_if, wrap_err,
}
use go_network_lab.Base.Io.{IoError}
use go_network_lab.Dns.Message.{Header, Question, Message, type_a, class_in, Error}
use go_network_lab.Dns.Encode.{encode_query}
use go_network_lab.Dns.Decode.{decode_message, is_truncated}
use go_network_lab.Dns.Validate.{Mismatch, validate_response, validate_rcode}
use go_network_lab.Dns.Extract.{ExtractError, extract_a_records}
use go_network_lab.Dns.Tcp.{ContextView, lookup_io_error, check, TcpError, TcpNetwork, exchange_tcp}

pub data LookupError : Type 0 where
  lookup_context rand_failed dial_failed set_deadline_failed send_failed receive_failed :
      IoError → LookupError
  encode_failed decode_failed decode_tcp_failed : Error → LookupError
  tcp_fallback : TcpError → LookupError
  validate_tcp_failed : Mismatch → LookupError
  still_truncated : LookupError
  response_error : ℕ → LookupError
  extract_failed : ExtractError → LookupError

-- The end of `LookupA`, at the message that is not truncated.
unfoldable pub conclude : Message → Question → Outcome LookupError (List Bytes)
conclude m q = elim (validate_rcode m) [
  | some code ↦ err (response_error code)
  | none ↦ wrap_err extract_failed (extract_a_records m q)
]

-- The fallback to TCP, and what comes of it.
unfoldable pub fall_back : TcpNetwork → Bytes → ℕ → Question → Outcome LookupError (List Bytes)
fall_back tcp query id q = do
  response ← wrap_err tcp_fallback (exchange_tcp tcp query)
  m ← wrap_err decode_tcp_failed (decode_message response)
  wrap_err validate_tcp_failed (validate_response m id q)
  fail_if (is_truncated m.header.flags) still_truncated
  conclude m q

-- What the loop does with a packet: `continue`, or return.
pub data Verdict : Type 0 where
  skip : Verdict
  answer : Outcome LookupError (List Bytes) → Verdict

-- `len(packet) >= 2 && binary.BigEndian.Uint16(packet[:2]) == queryID`
abbrev pub has_id : Bytes → ℕ → Bool
has_id (a ∷ b ∷ rest) id = a * 256 + b == id
has_id _ id = false

-- A validated message.
unfoldable pub accept :
    TcpNetwork → Bytes → ℕ → Question → Message → Outcome LookupError (List Bytes)
accept tcp query id q m =
    if is_truncated m.header.flags then fall_back tcp query id q else conclude m q

-- A decoded message.
unfoldable pub judge_message : TcpNetwork → Bytes → ℕ → Question → Message → Verdict
judge_message tcp query id q m = elim (validate_response m id q) [
  | ok _ ↦ answer (accept tcp query id q m)
  | err _ ↦ skip
  | panic ↦ answer panic
  | stuck ↦ answer stuck
]

unfoldable pub judge_decoded : TcpNetwork → Bytes → ℕ → Question → Outcome Error Message → Verdict
judge_decoded tcp query id q (ok m) = judge_message tcp query id q m
judge_decoded tcp query id q (err e) = answer (err (decode_failed e))
judge_decoded tcp query id q panic = answer panic
judge_decoded tcp query id q stuck = answer stuck

unfoldable pub judge : TcpNetwork → Bytes → ℕ → Question → Bytes → Verdict
judge tcp query id q packet =
    if not (has_id packet id) then skip else judge_decoded tcp query id q (decode_message packet)

-- What `conn.Read` returns; a failure comes with the context at that moment.
pub data Received : Type 0 where
  datagram : Bytes → Received
  failed : IoError → ContextView → Received

-- One round of the loop: the context before and after the read, and the read.
pub record Round : Type 0 where
  pub context_before : Option IoError
  pub received : Received
  pub context_after : Option IoError

-- The packet of a round, if the round gets as far as to look at one.
unfoldable pub receive : Round → Outcome LookupError Bytes
receive r = do
  check lookup_context r.context_before
  packet ← elim r.received [
    | datagram p ↦ ok p
    | failed e v ↦ err (receive_failed (lookup_io_error v e))
  ]
  check lookup_context r.context_after
  ok packet

-- The loop, in which the rounds are those that the network and the context have in store.
unfoldable pub lookup_loop :
    TcpNetwork → Bytes → ℕ → Question → List Round → Outcome LookupError (List Bytes)
lookup_loop tcp query id q [] = stuck
lookup_loop tcp query id q (r ∷ rs) = do
  packet ← receive r
  elim (judge tcp query id q packet) [
    | skip ↦ lookup_loop tcp query id q rs
    | answer result ↦ result
  ]

-- All that `LookupA` calls on.
pub record World : Type 0 where
  pub context_first : Option IoError
  pub random : Outcome IoError ℕ
  pub dial : Option IoError
  pub set_deadline : Option IoError
  pub send : Option IoError
  pub at_failure : ContextView
  pub rounds : List Round
  pub tcp : TcpNetwork

abbrev pub question_for : Bytes → Question
question_for name = record { name = name; qtype = type_a; qclass = class_in }

unfoldable pub lookup_a : World → Bytes → Outcome LookupError (List Bytes)
lookup_a w name = do
  check lookup_context w.context_first
  id ← wrap_err rand_failed w.random
  query ← wrap_err encode_failed (encode_query id (question_for name))
  check (λ e. dial_failed (lookup_io_error w.at_failure e)) w.dial
  check (λ e. set_deadline_failed (lookup_io_error w.at_failure e)) w.set_deadline
  check (λ e. send_failed (lookup_io_error w.at_failure e)) w.send
  lookup_loop w.tcp query id (question_for name) w.rounds
