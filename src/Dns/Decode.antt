-- ===== src/Dns/Decode.antt =====
-- internal/dns/decode.go, question.go and record.go. `len(data)-next < 2` on Go's integers and on
-- numbers, where the difference stops at 0, are the same test.
pub mod Bounds
pub mod RoundTrip
use go_network_lab.Base.{
  ℕ, zero, suc, ◌+◌, ◌-◌, ◌≡◌, refl, Bool, not, List, [], ◌∷◌, ◌++◌, Bytes, length, bit_and, ltb,
  ◌==◌, if◌then◌else◌, Outcome, ok, err, ◌>>=◌, ◌>>◌, fail_if, wrap_err, slice, uint16, uint32,
}
use go_network_lab.Dns.Message.{
  Header, Question, ResourceRecord, Message, flag_qr, flag_rd, flag_tc, flag_ra, rcode_mask, Error,
  wrapped, decode_question_name, decode_record_name, decode_header_context, decode_answers,
  decode_authority, decode_additional, decode_question_at, record_at, short_header, truncated_qtype,
  truncated_qclass, truncated_type, truncated_class, truncated_ttl, truncated_rdlength,
  truncated_rdata,
}
use go_network_lab.Dns.Name.{decode_name}

-- `binary.BigEndian.Uint16(data[at : at+2])`
unfoldable pub read_uint16 : Bytes → ℕ → Outcome Error ℕ
read_uint16 bytes at = do part ← slice bytes at (at + 2); uint16 part

-- `binary.BigEndian.Uint32(data[at : at+4])`
unfoldable pub read_uint32 : Bytes → ℕ → Outcome Error ℕ
read_uint32 bytes at = do part ← slice bytes at (at + 4); uint32 part

unfoldable pub decode_header : Bytes → Outcome Error Header
decode_header bytes = do
  fail_if (ltb (length bytes) 12) short_header
  id ← read_uint16 bytes 0
  flags ← read_uint16 bytes 2
  qd ← read_uint16 bytes 4
  an ← read_uint16 bytes 6
  ns ← read_uint16 bytes 8
  ar ← read_uint16 bytes 10
  ok (record { id = id; flags = flags; qd_count = qd; an_count = an; ns_count = ns; ar_count = ar })

-- The question behind its name.
unfoldable pub question_rest : Bytes → Bytes → ℕ → Outcome Error (Question × ℕ)
question_rest bytes name next = do
  fail_if (ltb (length bytes - next) 2) truncated_qtype
  qtype ← read_uint16 bytes next
  fail_if (ltb (length bytes - (next + 2)) 2) truncated_qclass
  qclass ← read_uint16 bytes (next + 2)
  ok (record { name = name; qtype = qtype; qclass = qclass }, next + 4)

unfoldable pub decode_question : Bytes → ℕ → Outcome Error (Question × ℕ)
decode_question bytes offset = do
  (name, next) ← wrap_err (wrapped decode_question_name) (decode_name bytes offset)
  question_rest bytes name next

-- The record from its RDATA on, whose other fields are read.
unfoldable pub record_data : Bytes → ResourceRecord → ℕ → Outcome Error (ResourceRecord × ℕ)
record_data bytes r next = do
  fail_if (ltb (length bytes - next) r.rdata_len) truncated_rdata
  rdata ← slice bytes next (next + r.rdata_len)
  ok (record r { rdata = rdata }, next + r.rdata_len)

-- The record behind its name.
unfoldable pub record_rest : Bytes → Bytes → ℕ → Outcome Error (ResourceRecord × ℕ)
record_rest bytes name next = do
  fail_if (ltb (length bytes - next) 2) truncated_type
  rtype ← read_uint16 bytes next
  fail_if (ltb (length bytes - (next + 2)) 2) truncated_class
  rclass ← read_uint16 bytes (next + 2)
  fail_if (ltb (length bytes - (next + 4)) 4) truncated_ttl
  ttl ← read_uint32 bytes (next + 4)
  fail_if (ltb (length bytes - (next + 8)) 2) truncated_rdlength
  rdata_len ← read_uint16 bytes (next + 8)
  record_data bytes
      (record {
        name = name;
        rtype = rtype;
        rclass = rclass;
        ttl = ttl;
        rdata_len = rdata_len;
        rdata = [];
      })
      (next + 10)

unfoldable pub decode_resource_record : Bytes → ℕ → Outcome Error (ResourceRecord × ℕ)
decode_resource_record bytes offset = do
  (name, next) ← wrap_err (wrapped decode_record_name) (decode_name bytes offset)
  record_rest bytes name next

-- The loop of `decodeRecords` with `left` rounds to go, at round `i`.
unfoldable pub records_loop :
    ℕ → ℕ → Bytes → ℕ → List ResourceRecord → Outcome Error (List ResourceRecord × ℕ)
records_loop zero i bytes offset records = ok (records, offset)
records_loop (suc left) i bytes offset records = do
  (r, next) ← wrap_err (wrapped (record_at (i + 1))) (decode_resource_record bytes offset)
  records_loop left (i + 1) bytes next (records ++ r ∷ [])

abbrev pub decode_records : Bytes → ℕ → ℕ → Outcome Error (List ResourceRecord × ℕ)
decode_records bytes offset count = records_loop count 0 bytes offset []

-- The loop over the questions in `DecodeMessage`.
unfoldable pub questions_loop :
    ℕ → ℕ → Bytes → ℕ → List Question → Outcome Error (List Question × ℕ)
questions_loop zero i bytes offset questions = ok (questions, offset)
questions_loop (suc left) i bytes offset questions = do
  (q, next) ← wrap_err (wrapped (decode_question_at (i + 1))) (decode_question bytes offset)
  questions_loop left (i + 1) bytes next (questions ++ q ∷ [])

unfoldable pub decode_message : Bytes → Outcome Error Message
decode_message bytes = do
  header ← wrap_err (wrapped decode_header_context) (decode_header bytes)
  (questions, after_questions) ← questions_loop header.qd_count 0 bytes 12 []
  (answers, after_answers) ←
      wrap_err (wrapped decode_answers) (decode_records bytes after_questions header.an_count)
  (authority, after_authority) ←
      wrap_err (wrapped decode_authority) (decode_records bytes after_answers header.ns_count)
  (additional, _) ←
      wrap_err (wrapped decode_additional) (decode_records bytes after_authority header.ar_count)
  ok (record {
    header = header;
    questions = questions;
    answers = answers;
    authority = authority;
    additional = additional;
  })

-- `flags&mask != 0`
unfoldable pub is_response : ℕ → Bool
is_response flags = not (bit_and flags flag_qr == 0)

unfoldable pub recursion_desired : ℕ → Bool
recursion_desired flags = not (bit_and flags flag_rd == 0)

unfoldable pub recursion_available : ℕ → Bool
recursion_available flags = not (bit_and flags flag_ra == 0)

unfoldable pub is_truncated : ℕ → Bool
is_truncated flags = not (bit_and flags flag_tc == 0)

unfoldable pub response_code : ℕ → ℕ
response_code flags = bit_and flags rcode_mask
