-- ===== src/Dns/Decode/RoundTrip.antt =====
-- The round trip of encode.go and decode.go.
use go_network_lab.Base.{
  ℕ, ◌+◌, ◌<◌, ◌≡◌, refl, [], ◌∷◌, ◌++◌, append-nil, append_assoc, arith, Bytes, length,
  length-append, u16_mod, ok, >>=-eq-ok, wrap_err, wrap_err-eq-ok, slice-append, put_uint16,
  uint16-put_uint16,
}
use go_network_lab.Base.Strings.{trim_suffix}
use go_network_lab.Dns.Message.{
  Header, Question, Message, HeaderFits, QuestionFits, Error, wrapped, encode_question_name,
}
use go_network_lab.Dns.Encode.{
  dot, encode_header, encode_name, encode_question, query_header, encode_query,
}
use go_network_lab.Dns.Name.RoundTrip.{decode_name-encode_name}
use go_network_lab.Dns.Decode.{
  read_uint16, decode_header, question_rest, decode_question, questions_loop, records_loop,
  decode_message,
}

read_uint16-put_uint16 :
    (before after : Bytes) (v at : ℕ)
    → at ≡ length before
    → v < u16_mod
    → read_uint16 (before ++ (put_uint16 v ++ after)) at ≡ ok v
unfolding read_uint16
read_uint16-put_uint16 before after v at e h =
    rw (e, slice-append before (put_uint16 v) after (length before + 2) refl)
      (uint16-put_uint16 {E = Error} v [] h)

-- `decodeHeader` reads back a header whose fields fit into 16 bits from what `encodeHeader` writes,
-- whatever follows.
decode_header-encode_header :
    (h : Header) (rest : Bytes) → HeaderFits h → decode_header (encode_header h ++ rest) ≡ ok h
unfolding decode_header encode_header
decode_header-encode_header h rest f =
    let id = put_uint16 h.id in
    let flags = put_uint16 h.flags in
    let qd = put_uint16 h.qd_count in
    let an = put_uint16 h.an_count in
    let ns = put_uint16 h.ns_count in
    let ar = put_uint16 h.ar_count in
    ground (
      arith,
      read_uint16-put_uint16 [] (flags ++ (qd ++ (an ++ (ns ++ (ar ++ rest))))) h.id 0,
      read_uint16-put_uint16 id (qd ++ (an ++ (ns ++ (ar ++ rest)))) h.flags 2,
      read_uint16-put_uint16 (id ++ flags) (an ++ (ns ++ (ar ++ rest))) h.qd_count 4,
      read_uint16-put_uint16 (id ++ flags ++ qd) (ns ++ (ar ++ rest)) h.an_count 6,
      read_uint16-put_uint16 (id ++ flags ++ qd ++ an) (ar ++ rest) h.ns_count 8,
      read_uint16-put_uint16 (id ++ flags ++ qd ++ an ++ ns) rest h.ar_count 10,
    )

question_rest-put_uint16 :
    (before after name : Bytes) (qtype qclass next : ℕ)
    → next ≡ length before
    → qtype < u16_mod
    → qclass < u16_mod
    → question_rest (before ++ (put_uint16 qtype ++ (put_uint16 qclass ++ after))) name next
      ≡ ok (record { name = name; qtype = qtype; qclass = qclass }, next + 4)
unfolding question_rest
question_rest-put_uint16 before after name qtype qclass next e ht hc =
    let second : Bytes = put_uint16 qclass ++ after in
    let regroup : (before ++ put_uint16 qtype) ++ second ≡ before ++ (put_uint16 qtype ++ second) =
      append_assoc before (put_uint16 qtype) second in
    let behind : next + 2 ≡ length (before ++ put_uint16 qtype) =
      omega (arith, length-append {0} before (put_uint16 qtype)) in
    let class_read : read_uint16 (before ++ (put_uint16 qtype ++ second)) (next + 2) ≡ ok qclass =
      rw regroup at
        (read_uint16-put_uint16 (before ++ put_uint16 qtype) after qclass (next + 2) behind hc) in
    ground (
      arith,
      read_uint16-put_uint16 before second qtype next,
      class_read,
      length-append {0} before (put_uint16 qtype ++ second),
    )

abbrev types_of : Question → Bytes
types_of q = put_uint16 q.qtype ++ put_uint16 q.qclass

encode_question-eq-ok :
    (q : Question) {wire : Bytes}
    → encode_question q ≡ ok wire
    → (name : Bytes) × (encode_name q.name ≡ ok name) × (wire ≡ name ++ types_of q)
unfolding encode_question
encode_question-eq-ok q h =
    let (name, e, written) =
      >>=-eq-ok (wrap_err (wrapped encode_question_name) (encode_name q.name)) _ h in
    (name, wrap_err-eq-ok (wrapped encode_question_name) (encode_name q.name) e, ground arith)

decode_question-encode_name :
    (q : Question) (before name after : Bytes)
    → QuestionFits q
    → encode_name q.name ≡ ok name
    → decode_question (before ++ (name ++ (types_of q ++ after))) (length before)
      ≡ ok (record q { name = trim_suffix dot q.name }, length before + length name + 4)
unfolding decode_question
decode_question-encode_name q before name after f h =
    let regroup : (before ++ name) ++ (types_of q ++ after)
        ≡ before ++ (name ++ (types_of q ++ after)) =
      append_assoc before name (types_of q ++ after) in
    let size : length before + length name ≡ length (before ++ name) =
      omega (arith, length-append {0} before name) in
    let rest =
      question_rest-put_uint16 (before ++ name) after (trim_suffix dot q.name) q.qtype q.qclass
        (length before + length name) size f.qtype_fits f.qclass_fits in
    rw (decode_name-encode_name q.name before (types_of q ++ after) h) (rw regroup at rest)

-- `decodeQuestion` reads back what `encodeQuestion` writes, without the name's trailing dot.
decode_question-encode_question :
    (q : Question) (before after : Bytes) {wire : Bytes}
    → QuestionFits q
    → encode_question q ≡ ok wire
    → decode_question (before ++ (wire ++ after)) (length before)
      ≡ ok (record q { name = trim_suffix dot q.name }, length before + length wire)
decode_question-encode_question q before after f h =
    let (name, e, w) = encode_question-eq-ok q h in
    let regroup : (name ++ types_of q) ++ after ≡ name ++ (types_of q ++ after) =
      append_assoc name (types_of q) after in
    let size : length before + length (name ++ types_of q) ≡ length before + length name + 4 =
      omega (arith, length-append {0} name (types_of q)) in
    rw (w, regroup, size) (decode_question-encode_name q before name after f e)

-- The message that a query decodes to.
abbrev pub query_message : ℕ → Question → Message
query_message id q = record {
  header = query_header id;
  questions = record q { name = trim_suffix dot q.name } ∷ [];
  answers = [];
  authority = [];
  additional = [];
}

length-encode_header : (h : Header) → length (encode_header h) ≡ 12
unfolding encode_header
length-encode_header h = refl

decode_message-encode_question :
    (id : ℕ) (q : Question) {wire : Bytes}
    → id < u16_mod
    → QuestionFits q
    → encode_question q ≡ ok wire
    → decode_message (encode_header (query_header id) ++ wire) ≡ ok (query_message id q)
unfolding decode_message questions_loop records_loop
decode_message-encode_question id q {wire} hid f h =
    let header = encode_header (query_header id) in
    let header_read = decode_header-encode_header (query_header id) wire (omega arith) in
    let question_read : decode_question (header ++ wire) 12
        ≡ ok (record q { name = trim_suffix dot q.name }, 12 + length wire) =
      rw (append-nil wire, length-encode_header (query_header id)) at
        (decode_question-encode_question q header [] f h) in
    rw header_read (rw question_read refl)

-- `DecodeMessage` reads back what `EncodeQuery` writes: the header with the transaction ID and RD,
-- and the question, without its name's trailing dot.
pub decode_message-encode_query :
    (id : ℕ) (q : Question) {bytes : Bytes}
    → id < u16_mod
    → QuestionFits q
    → encode_query id q ≡ ok bytes
    → decode_message bytes ≡ ok (query_message id q)
unfolding encode_query
decode_message-encode_query id q {bytes} hid f h =
    let (wire, e, w) = >>=-eq-ok (encode_question q) _ h in
    let same : encode_header (query_header id) ++ wire ≡ bytes = ground arith in
    rw same at (decode_message-encode_question id q hid f e)
