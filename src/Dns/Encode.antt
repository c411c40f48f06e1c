-- ===== src/Dns/Encode.antt =====
-- internal/dns/encode.go. A buffer that is made and then filled in order is the list of what is
-- put into it.
use go_network_lab.Base.{
  ℕ, ◌%◌, List, [], ◌∷◌, ◌++◌, Bytes, length, null, ltb, if◌then◌else◌, put_uint16, Outcome, ok,
  err, ◌>>=◌, wrap_err,
}
use go_network_lab.Base.Strings.{trim_suffix, split}
use go_network_lab.Dns.Message.{
  Header, Question, flag_rd, Error, wrapped, encode_question_name, empty_name, empty_label,
  encoded_name_too_long, label_too_long,
}

abbrev pub dot : ℕ
dot = b'.'

unfoldable pub encode_header : Header → Bytes
encode_header h =
    put_uint16 h.id
    ++ (put_uint16 h.flags
        ++ (put_uint16 h.qd_count
            ++ (put_uint16 h.an_count ++ (put_uint16 h.ns_count ++ put_uint16 h.ar_count))))

-- The loop over the labels; `encoded` is what was appended before.
unfoldable pub encode_labels : Bytes → List Bytes → Outcome Error Bytes
encode_labels encoded [] = ok encoded
encode_labels encoded (label ∷ labels) =
    let rest = encode_labels (encoded ++ (length label % 256 ∷ []) ++ label) labels in
    if null label
    then err empty_label
    else if ltb 63 (length label)
    then err (label_too_long label)
    else rest

-- `encodeName` past the two tests for an empty name
unfoldable pub encode_trimmed : Bytes → Outcome Error Bytes
unfolding encode_labels
encode_trimmed name = do
  labels ← encode_labels [] (split dot name)
  let encoded = labels ++ 0 ∷ []
  if ltb 255 (length encoded) then err encoded_name_too_long else ok encoded

unfoldable pub encode_name : Bytes → Outcome Error Bytes
unfolding encode_trimmed
encode_name name =
    let trimmed = trim_suffix dot name in
    if null name
    then err empty_name
    else if null trimmed
    then ok (0 ∷ [])
    else encode_trimmed trimmed

unfoldable pub encode_question : Question → Outcome Error Bytes
unfolding encode_name
encode_question q = do
  name ← wrap_err (wrapped encode_question_name) (encode_name q.name)
  ok (name ++ (put_uint16 q.qtype ++ put_uint16 q.qclass))

abbrev pub query_header : ℕ → Header
query_header id = record {
  id = id;
  flags = flag_rd;
  qd_count = 1;
  an_count = 0;
  ns_count = 0;
  ar_count = 0;
}

unfoldable pub encode_query : ℕ → Question → Outcome Error Bytes
unfolding encode_header encode_question
encode_query id q = do encoded ← encode_question q; ok (encode_header (query_header id) ++ encoded)
