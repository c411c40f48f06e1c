-- ===== src/Dns/Tests/Client.antt =====
-- validate.go, extract.go, tcp.go and lookup.go: runs, and the theorems at concrete inputs.
use go_network_lab.Base.{
  ◌≡◌, refl, ◌↔◌, [], ◌∷◌, ◌++◌, false, none, some, arith, Bytes, codes, index, slice, uint16,
  uint32, ok, put_uint16,
}
use go_network_lab.Base.Strings.{trim_suffix, split, join}
use go_network_lab.Base.Io.{eof, write_full}
use go_network_lab.Dns.Message.{Message, type_a, class_in}
use go_network_lab.Dns.Encode.{encode_query}
use go_network_lab.Dns.Name.{follow_pointer, take_label, name_at, name_step, name_loop, decode_name}
use go_network_lab.Dns.Decode.{
  read_uint16, read_uint32, decode_header, question_rest, decode_question, record_data, record_rest,
  decode_resource_record, records_loop, questions_loop, decode_message, is_response, is_truncated,
  response_code,
}
use go_network_lab.Dns.Validate.{
  fold_case, equal_question_names, validate_question, validate_response, validate_rcode,
}
use go_network_lab.Dns.Validate.Meaning.{Answers, validate_response_iff}
use go_network_lab.Dns.Extract.{is_skipped, extract_a_records, ipv4}
use go_network_lab.Dns.Extract.Meaning.{Extracted, extract_a_records-Extracted}
use go_network_lab.Dns.Tcp.{
  ContextView, TcpConn, TcpNetwork, tcp_frame, read_response, exchange_tcp_conn,
}
use go_network_lab.Dns.Tcp.Exchange.{
  Delivers, read_response_iff, exchange_tcp_conn-eq-ok, exchange_tcp_conn-Delivers,
}
use go_network_lab.Dns.Lookup.{
  conclude, accept, judge_message, judge_decoded, judge, datagram, Round, receive, lookup_loop,
  World, question_for, lookup_a,
}
use go_network_lab.Dns.Lookup.Provenance.{Asked, Source, Good, lookup_a-Traced}
use go_network_lab.Dns.Lookup.Noise.{NoiseRound, foreign_id, lookup_loop-noise}

abbrev name : Bytes
name = codes "a.io"

abbrev name_wire : Bytes
name_wire = 1 ∷ (codes "a" ++ 2 ∷ (codes "io" ++ 0 ∷ []))

-- A response to ID 7 with one A record, whose name is a pointer to the question's.
abbrev reply_bytes : Bytes
reply_bytes =
    0
    ∷ 7
    ∷ 0x81
    ∷ 0x80
    ∷ 0
    ∷ 1
    ∷ 0
    ∷ 1
    ∷ 0
    ∷ 0
    ∷ 0
    ∷ 0
    ∷ (name_wire
        ++ 0 ∷ 1 ∷ 0 ∷ 1 ∷ 192 ∷ 12 ∷ 0 ∷ 1 ∷ 0 ∷ 1 ∷ 0 ∷ 0 ∷ 0 ∷ 60 ∷ 0 ∷ 4 ∷ 10 ∷ 0 ∷ 0 ∷ 1 ∷ [])

abbrev reply : Message
reply = record {
  header = record {
    id = 7;
    flags = 0x8180;
    qd_count = 1;
    an_count = 1;
    ns_count = 0;
    ar_count = 0;
  };
  questions = question_for name ∷ [];
  answers =
      record {
        name = name;
        rtype = type_a;
        rclass = class_in;
        ttl = 60;
        rdata_len = 4;
        rdata = 10 ∷ 0 ∷ 0 ∷ 1 ∷ [];
      }
      ∷ [];
  authority = [];
  additional = [];
}

decode_message-reply_bytes : decode_message reply_bytes ≡ ok reply
unfolding decode_message decode_header read_uint16 read_uint32 uint16 uint32 slice questions_loop
    records_loop decode_question question_rest decode_resource_record record_rest record_data
    decode_name name_loop name_step name_at follow_pointer take_label index join
decode_message-reply_bytes = refl

validate-reply : validate_response reply 7 (question_for (codes "A.IO.")) ≡ ok tt
unfolding validate_response is_response index validate_question equal_question_names trim_suffix
    fold_case
validate-reply = refl

validate_response_iff_example :
    (validate_response reply 7 (question_for (codes "A.IO.")) ≡ ok tt)
    ↔ Answers reply 7 (question_for (codes "A.IO."))
validate_response_iff_example = validate_response_iff reply 7 (question_for (codes "A.IO."))

extract-reply : extract_a_records reply (question_for name) ≡ ok (ipv4 10 0 0 1 ∷ [])
unfolding extract_a_records is_skipped equal_question_names trim_suffix fold_case index
extract-reply = refl

extract_a_records-Extracted_example :
    Extracted (question_for name) 0 reply.answers [] (extract_a_records reply (question_for name))
extract_a_records-Extracted_example =
    extract_a_records-Extracted reply (question_for name) refl refl

abbrev valid : ContextView
valid = record { error = none; deadline_passed = false }

-- The reply arrives byte by byte at first, behind its length; the frame is written in two pieces.
abbrev conn : TcpConn
conn = record {
  context_before = none;
  deadline = some none;
  writes = record { count = 3; failure = none } ∷ record { count = 21; failure = none } ∷ [];
  incoming = record { chunks = (0 ∷ []) ∷ (38 ∷ []) ∷ reply_bytes ∷ []; failure = eof };
  context_after = none;
  at_failure = valid;
}

conn-Delivers : Delivers conn reply_bytes
conn-Delivers = record {
  high = 0;
  low = 38;
  following = [];
  delivered = refl;
  prefix = refl;
  long_enough = omega arith;
  still_valid = refl;
}

read_response_iff_example : (read_response conn ≡ ok reply_bytes) ↔ Delivers conn reply_bytes
read_response_iff_example = read_response_iff conn reply_bytes

abbrev query : Bytes
query = 0 ∷ 7 ∷ 1 ∷ 0 ∷ 0 ∷ 1 ∷ 0 ∷ 0 ∷ 0 ∷ 0 ∷ 0 ∷ 0 ∷ (name_wire ++ 0 ∷ 1 ∷ 0 ∷ 1 ∷ [])

exchange_tcp_conn-Delivers_example : exchange_tcp_conn conn query ≡ ok reply_bytes
exchange_tcp_conn-Delivers_example =
    exchange_tcp_conn-Delivers conn query reply_bytes (omega arith) refl refl
      (refl, omega arith, omega arith, (refl, omega arith, omega arith, tt)) conn-Delivers

exchange_tcp_conn-eq-ok_example :
    ((write_full (tcp_frame query) conn.writes []).1 ≡ put_uint16 22 ++ query)
    × Delivers conn reply_bytes
exchange_tcp_conn-eq-ok_example =
    exchange_tcp_conn-eq-ok conn query reply_bytes exchange_tcp_conn-Delivers_example

abbrev network : TcpNetwork
network = record { context_first = none; dial_failure = none; dial_view = valid; conn = conn }

-- A packet with another ID, and the reply.
abbrev noise_round : Round
noise_round = record {
  context_before = none;
  received = datagram (0 ∷ 8 ∷ codes "forged");
  context_after = none;
}

abbrev reply_round : Round
reply_round = record {
  context_before = none;
  received = datagram reply_bytes;
  context_after = none;
}

abbrev world : World
world = record {
  context_first = none;
  random = ok 7;
  dial = none;
  set_deadline = none;
  send = none;
  at_failure = valid;
  rounds = noise_round ∷ reply_round ∷ [];
  tcp = network;
}

lookup_a-world : lookup_a world name ≡ ok (ipv4 10 0 0 1 ∷ [])
unfolding lookup_a encode_query split lookup_loop receive judge judge_decoded judge_message accept
    conclude validate_rcode response_code is_truncated validate_response is_response
    validate_question equal_question_names trim_suffix fold_case extract_a_records is_skipped
    decode_message decode_header read_uint16 read_uint32 uint16 uint32 slice questions_loop
    records_loop decode_question question_rest decode_resource_record record_rest record_data
    decode_name name_loop name_step name_at follow_pointer take_label index join
lookup_a-world = refl

lookup_a-Traced_example :
    (a : Asked world name) × (m : Message) × Source network a.query world.rounds m
    × Good a.id (question_for name) m (ipv4 10 0 0 1 ∷ [])
lookup_a-Traced_example = lookup_a-Traced world name (ipv4 10 0 0 1 ∷ []) lookup_a-world

noise_round-NoiseRound : NoiseRound 7 (question_for name) noise_round
noise_round-NoiseRound = record {
  packet = 0 ∷ 8 ∷ codes "forged";
  valid_before = refl;
  delivers = refl;
  valid_after = refl;
  noise = foreign_id refl;
}

lookup_loop-noise_example :
    lookup_loop network query 7 (question_for name) (noise_round ∷ reply_round ∷ [])
    ≡ lookup_loop network query 7 (question_for name) (reply_round ∷ [])
lookup_loop-noise_example =
    lookup_loop-noise network query 7 (question_for name) (noise_round ∷ []) (reply_round ∷ [])
      (noise_round-NoiseRound, tt)
