-- ===== src/Dns/Decode/Bounds.antt =====
-- The decoders of the message's parts return on every message, and what they return has the shape
-- that the header declares.
use go_network_lab.Base.{
  ℕ, zero, suc, ◌+◌, ◌-◌, ◌≤◌, ◌<◌, ◌≡◌, List, [], ◌∷◌, ◌++◌, arith, Bytes, length, length-append,
  take, drop, length-take, length-drop, All, All-append, ltb, Outcome, ok, ◌>>=◌, ◌>>◌, fail_if,
  wrap_err, Returns, Returns-bind, Returns-wrap_err, Returns-fail_if, slice, slice_lem,
  uint16-length, uint32-length,
}
use go_network_lab.Dns.Message.{Header, Question, ResourceRecord, Message, Error}
use go_network_lab.Dns.Name.Bounds.{NameWithin, decode_name-Returns}
use go_network_lab.Dns.Decode.{
  read_uint16, read_uint32, decode_header, question_rest, decode_question, record_data, record_rest,
  decode_resource_record, records_loop, decode_records, questions_loop, decode_message,
}

abbrev Any : {A : Type 0} → A → Type 0
Any a = Unit

module _ (bytes : Bytes) (at : ℕ) where
  slice-length :
      (n : ℕ)
      → at + n ≤ length bytes
      → (part : Bytes) × (slice {E = Error} bytes at (at + n) ≡ ok part) × (length part ≡ n)
  slice-length n h = (
    take (at + n - at) (drop at bytes),
    slice_lem bytes at (at + n) (omega arith) h,
    omega (arith, length-take (at + n - at) (drop at bytes), length-drop at bytes),
  )

  read_uint16-Returns : at + 2 ≤ length bytes → Returns (read_uint16 bytes at) Any
  unfolding read_uint16
  read_uint16-Returns h =
      let (part, e, size) = slice-length 2 h in
      let (v, read) = uint16-length {E = Error} part (omega arith) in rw (e, read) tt

  read_uint32-Returns : at + 4 ≤ length bytes → Returns (read_uint32 bytes at) Any
  unfolding read_uint32
  read_uint32-Returns h =
      let (part, e, size) = slice-length 4 h in
      let (v, read) = uint32-length {E = Error} part (omega arith) in rw (e, read) tt

module _ {A : Type 0} (P : A → Type 0) (bytes : Bytes) (at : ℕ) (e : Error) where
  -- A guarded read: the rest may use that it was within the message.
  read_uint16_then :
      (k : ℕ → Outcome Error A)
      → (at + 2 ≤ length bytes → (v : ℕ) → Returns (k v) P)
      → Returns (fail_if (ltb (length bytes - at) 2) e >> (read_uint16 bytes at >>= k)) P
  read_uint16_then k h =
      Returns-fail_if P (ltb (length bytes - at) 2) e (read_uint16 bytes at >>= k) λ whole.
        let fits : at + 2 ≤ length bytes = ground arith in
        Returns-bind Any P (read_uint16 bytes at) k (read_uint16-Returns bytes at fits)
          (λ v _. h fits v)

  read_uint32_then :
      (k : ℕ → Outcome Error A)
      → (at + 4 ≤ length bytes → (v : ℕ) → Returns (k v) P)
      → Returns (fail_if (ltb (length bytes - at) 4) e >> (read_uint32 bytes at >>= k)) P
  read_uint32_then k h =
      Returns-fail_if P (ltb (length bytes - at) 4) e (read_uint32 bytes at >>= k) λ whole.
        let fits : at + 4 ≤ length bytes = ground arith in
        Returns-bind Any P (read_uint32 bytes at) k (read_uint32-Returns bytes at fits)
          (λ v _. h fits v)

-- The next offset lies behind `offset` and within the message.
abbrev QuestionWithin : Bytes → ℕ → Question × ℕ → Type 0
QuestionWithin bytes offset (q, next) = (offset < next) × (next ≤ length bytes)

-- The RDATA of a record is as long as its RDLENGTH says.
abbrev pub IsWhole : ResourceRecord → Type 0
IsWhole r = length r.rdata ≡ r.rdata_len

abbrev RecordWithin : Bytes → ℕ → ResourceRecord × ℕ → Type 0
RecordWithin bytes offset (r, next) = (offset < next) × (next ≤ length bytes) × IsWhole r

abbrev HasHeader : Bytes → Header → Type 0
HasHeader bytes header = 12 ≤ length bytes

module _ (bytes : Bytes) (long : 12 ≤ length bytes) where
  read_within :
      (k : ℕ → Outcome Error Header) (at : ℕ)
      → at + 2 ≤ 12
      → ((v : ℕ) → Returns (k v) (HasHeader bytes))
      → Returns (read_uint16 bytes at >>= k) (HasHeader bytes)
  read_within k at h r =
      Returns-bind Any (HasHeader bytes) (read_uint16 bytes at) k
        (read_uint16-Returns bytes at (omega arith)) (λ v _. r v)

decode_header-Returns : (bytes : Bytes) → Returns (decode_header bytes) (HasHeader bytes)
unfolding decode_header
decode_header-Returns bytes = Returns-fail_if (HasHeader bytes) (ltb (length bytes) 12) _ _ λ whole.
    let long : 12 ≤ length bytes = ground arith in
    let read = read_within bytes long in
    read _ 0 (omega arith) λ id. read _ 2 (omega arith) λ flags. read _ 4 (omega arith) λ qd.
      read _ 6 (omega arith) λ an. read _ 8 (omega arith) λ ns. read _ 10 (omega arith) λ ar. long

module _ (bytes name : Bytes) (offset : ℕ) where
  question_rest-Returns :
      (next : ℕ)
      → offset < next
      → Returns (question_rest bytes name next) (QuestionWithin bytes offset)
  unfolding question_rest
  question_rest-Returns next h =
      read_uint16_then (QuestionWithin bytes offset) bytes next _ _ λ _ qtype.
        read_uint16_then (QuestionWithin bytes offset) bytes (next + 2) _ _
          λ fits qclass. (omega arith, omega arith)

  record_data-Returns :
      (r : ResourceRecord) (next : ℕ)
      → offset < next
      → next ≤ length bytes
      → Returns (record_data bytes r next) (RecordWithin bytes offset)
  unfolding record_data
  record_data-Returns r next h le =
      Returns-fail_if (RecordWithin bytes offset) (ltb (length bytes - next) r.rdata_len) _ _
        λ whole.
          let (part, e, size) = slice-length bytes next r.rdata_len (ground arith) in
          rw e (omega arith, ground arith, size)

  record_rest-Returns :
      (next : ℕ) → offset < next → Returns (record_rest bytes name next) (RecordWithin bytes offset)
  unfolding record_rest
  record_rest-Returns next h = read_uint16_then P bytes next _ _ λ _ rtype.
      read_uint16_then P bytes (next + 2) _ _ λ _ rclass.
        read_uint32_then P bytes (next + 4) _ _ λ _ ttl.
          read_uint16_then P bytes (next + 8) _ _
            λ fits rdata_len. record_data-Returns _ (next + 10) (omega arith) (omega arith)
    where
      P : ResourceRecord × ℕ → Type 0
      P = RecordWithin bytes offset

decode_question-Returns :
    (bytes : Bytes) (offset : ℕ)
    → Returns (decode_question bytes offset) (QuestionWithin bytes offset)
unfolding decode_question
decode_question-Returns bytes offset =
    Returns-bind (NameWithin bytes offset) (QuestionWithin bytes offset) _ _
      (Returns-wrap_err (NameWithin bytes offset) _ _ (decode_name-Returns bytes offset))
      λ r w. question_rest-Returns bytes r.0 offset r.1 w.0

decode_resource_record-Returns :
    (bytes : Bytes) (offset : ℕ)
    → Returns (decode_resource_record bytes offset) (RecordWithin bytes offset)
unfolding decode_resource_record
decode_resource_record-Returns bytes offset =
    Returns-bind (NameWithin bytes offset) (RecordWithin bytes offset) _ _
      (Returns-wrap_err (NameWithin bytes offset) _ _ (decode_name-Returns bytes offset))
      λ r w. record_rest-Returns bytes r.0 offset r.1 w.0

-- The loops return as many parts as they are told to, and stay within the message.
abbrev RecordsWithin : ℕ → Bytes → ℕ → List ResourceRecord × ℕ → Type 0
RecordsWithin count bytes offset (rs, next) =
    (length rs ≡ count) × All IsWhole rs × (offset ≤ next) × (next ≤ length bytes)

records_loop-Returns :
    (left i : ℕ) (bytes : Bytes) (start offset count : ℕ) (rs : List ResourceRecord)
    → length rs + left ≡ count
    → start ≤ offset
    → offset ≤ length bytes
    → All IsWhole rs
    → Returns (records_loop left i bytes offset rs) (RecordsWithin count bytes start)
unfolding records_loop
records_loop-Returns zero i bytes start offset count rs n s h whole = (omega arith, whole, s, h)
records_loop-Returns (suc left) i bytes start offset count rs n s h whole =
    Returns-bind (RecordWithin bytes offset) (RecordsWithin count bytes start) _ _
      (Returns-wrap_err (RecordWithin bytes offset) _ _
        (decode_resource_record-Returns bytes offset))
      λ r w.
        records_loop-Returns left (i + 1) bytes start r.1 count (rs ++ r.0 ∷ [])
          (omega (arith, length-append {0} rs (r.0 ∷ []))) (omega arith) w.1
          (All-append IsWhole rs (r.0 ∷ []) whole (w.2, tt))

abbrev QuestionsWithin : ℕ → Bytes → ℕ → List Question × ℕ → Type 0
QuestionsWithin count bytes offset (qs, next) =
    (length qs ≡ count) × (offset ≤ next) × (next ≤ length bytes)

questions_loop-Returns :
    (left i : ℕ) (bytes : Bytes) (start offset count : ℕ) (qs : List Question)
    → length qs + left ≡ count
    → start ≤ offset
    → offset ≤ length bytes
    → Returns (questions_loop left i bytes offset qs) (QuestionsWithin count bytes start)
unfolding questions_loop
questions_loop-Returns zero i bytes start offset count qs n s h = (omega arith, s, h)
questions_loop-Returns (suc left) i bytes start offset count qs n s h =
    Returns-bind (QuestionWithin bytes offset) (QuestionsWithin count bytes start) _ _
      (Returns-wrap_err (QuestionWithin bytes offset) _ _ (decode_question-Returns bytes offset))
      λ r w.
        questions_loop-Returns left (i + 1) bytes start r.1 count (qs ++ r.0 ∷ [])
          (omega (arith, length-append {0} qs (r.0 ∷ []))) (omega arith) w.1

-- The sections are as long as the header declares, and every RDATA as long as its RDLENGTH.
pub record IsComplete (m : Message) : Type 0 where
  pub questions_counted : length m.questions ≡ m.header.qd_count
  pub answers_counted : length m.answers ≡ m.header.an_count
  pub authority_counted : length m.authority ≡ m.header.ns_count
  pub additional_counted : length m.additional ≡ m.header.ar_count
  pub answers_whole : All IsWhole m.answers
  pub authority_whole : All IsWhole m.authority
  pub additional_whole : All IsWhole m.additional

module _ (bytes : Bytes) where
  section-Returns :
      (w : Error → Error) (offset count : ℕ)
      → offset ≤ length bytes
      → Returns (wrap_err w (decode_records bytes offset count)) (RecordsWithin count bytes offset)
  section-Returns w offset count h =
      Returns-wrap_err (RecordsWithin count bytes offset) w (decode_records bytes offset count)
        (records_loop-Returns count 0 bytes offset offset count [] (omega arith) (omega arith) h tt)

-- On every datagram or TCP payload `DecodeMessage` returns a message or an error: no read is out of
-- range, and the work ends. The message that it returns has as many questions and records in each
-- section as its header declares, and each record's RDATA is as long as its RDLENGTH.
pub decode_message-Returns : (bytes : Bytes) → Returns (decode_message bytes) IsComplete
unfolding decode_message
decode_message-Returns bytes =
    Returns-bind (HasHeader bytes) IsComplete _ _
      (Returns-wrap_err (HasHeader bytes) _ _ (decode_header-Returns bytes))
      λ header long.
        Returns-bind (QuestionsWithin header.qd_count bytes 12) IsComplete _ _
          (questions_loop-Returns header.qd_count 0 bytes 12 12 header.qd_count [] (omega arith)
            (omega arith) long)
          λ qs q.
            Returns-bind (RecordsWithin header.an_count bytes qs.1) IsComplete _ _
              (section-Returns bytes _ qs.1 header.an_count q.2)
              λ an a.
                Returns-bind (RecordsWithin header.ns_count bytes an.1) IsComplete _ _
                  (section-Returns bytes _ an.1 header.ns_count a.3)
                  λ ns n.
                    Returns-bind (RecordsWithin header.ar_count bytes ns.1) IsComplete _ _
                      (section-Returns bytes _ ns.1 header.ar_count n.3)
                      λ ar r. record {
                        questions_counted = q.0;
                        answers_counted = a.0;
                        authority_counted = n.0;
                        additional_counted = r.0;
                        answers_whole = a.1;
                        authority_whole = n.1;
                        additional_whole = r.1;
                      }
