-- ===== src/Dns/Tests/Codec.antt =====
-- encode.go, name.go, decode.go: runs, and the theorems at concrete inputs.
use go_network_lab.Base.{
  ◌≡◌, refl, [], ◌∷◌, ◌++◌, arith, Bytes, codes, index, slice, uint16, ok, err, Returns,
}
use go_network_lab.Base.Strings.{trim_suffix, split}
use go_network_lab.Dns.Message.{
  Question, type_a, class_in, too_many_jumps, empty_label, empty_name, wrapped, decode_question_at,
  decode_question_name, truncated_pointer,
}
use go_network_lab.Dns.Encode.{encode_name, encode_query}
use go_network_lab.Dns.Name.{follow_pointer, name_at, name_step, name_loop, decode_name}
use go_network_lab.Dns.Name.Bounds.{NameWithin, decode_name-Returns}
use go_network_lab.Dns.Name.RoundTrip.{decode_name-encode_name}
use go_network_lab.Dns.Name.Pointer.{PointerAt, decode_name-PointerAt}
use go_network_lab.Dns.Decode.{
  read_uint16, decode_header, decode_question, questions_loop, decode_message,
}
use go_network_lab.Dns.Decode.Bounds.{IsComplete, decode_message-Returns}
use go_network_lab.Dns.Decode.RoundTrip.{query_message, decode_message-encode_query}

abbrev example_com : Bytes
example_com = codes "example.com."

abbrev example_wire : Bytes
example_wire = 7 ∷ (codes "example" ++ (3 ∷ (codes "com" ++ 0 ∷ [])))

encode_name-example_com : encode_name example_com ≡ ok example_wire
unfolding encode_name trim_suffix split
encode_name-example_com = refl

encode_errors :
    (encode_name [] ≡ err empty_name)
    × (encode_name (codes "a..b") ≡ err empty_label)
    × (encode_name (codes ".") ≡ ok (0 ∷ []))
unfolding encode_name trim_suffix split
encode_errors = (refl, refl, refl)

-- A compression pointer to itself.
abbrev pointer_loop : Bytes
pointer_loop = 192 ∷ 0 ∷ []

decode_name-pointer_loop : decode_name pointer_loop 0 ≡ err too_many_jumps
unfolding decode_name name_loop name_step name_at follow_pointer index
decode_name-pointer_loop = refl

decode_name-Returns_example : Returns (decode_name pointer_loop 0) (NameWithin pointer_loop 0)
decode_name-Returns_example = decode_name-Returns pointer_loop 0

decode_name-encode_name_example :
    decode_name (codes "ab" ++ (example_wire ++ codes "z")) 2 ≡ ok (codes "example.com", 15)
unfolding trim_suffix
decode_name-encode_name_example =
    decode_name-encode_name example_com (codes "ab") (codes "z") encode_name-example_com

-- The name at offset 2, and a pointer to it at offset 15.
abbrev pointed : Bytes
pointed = codes "ab" ++ (example_wire ++ 192 ∷ 2 ∷ [])

pointed-PointerAt : PointerAt pointed 15 2
pointed-PointerAt = record { high = refl; low = refl; in_range = omega arith }

decode_name-PointerAt_example : decode_name pointed 15 ≡ ok (codes "example.com", 17)
unfolding trim_suffix
decode_name-PointerAt_example =
    decode_name-PointerAt example_com (codes "ab") (192 ∷ 2 ∷ []) 15 encode_name-example_com
      pointed-PointerAt

abbrev question : Question
question = record { name = example_com; qtype = type_a; qclass = class_in }

abbrev query_bytes : Bytes
query_bytes =
    0x12 ∷ 0x34 ∷ 1 ∷ 0 ∷ 0 ∷ 1 ∷ 0 ∷ 0 ∷ 0 ∷ 0 ∷ 0 ∷ 0 ∷ (example_wire ++ 0 ∷ 1 ∷ 0 ∷ 1 ∷ [])

encode_query-example : encode_query 0x1234 question ≡ ok query_bytes
unfolding encode_query trim_suffix split
encode_query-example = refl

decode_message-encode_query_example :
    decode_message query_bytes ≡ ok (query_message 0x1234 question)
decode_message-encode_query_example =
    decode_message-encode_query 0x1234 question {bytes = query_bytes} (omega arith) (omega arith)
      encode_query-example

-- A message whose only question ends in a cut pointer.
abbrev cut_message : Bytes
cut_message = 0 ∷ 1 ∷ 128 ∷ 0 ∷ 0 ∷ 1 ∷ 0 ∷ 0 ∷ 0 ∷ 0 ∷ 0 ∷ 0 ∷ 192 ∷ []

decode_message-cut_message :
    decode_message cut_message
    ≡ err (wrapped (decode_question_at 1) (wrapped decode_question_name truncated_pointer))
unfolding decode_message decode_header read_uint16 uint16 slice questions_loop decode_question
    decode_name name_loop name_step name_at follow_pointer index
decode_message-cut_message = refl

decode_message-Returns_example : Returns (decode_message cut_message) IsComplete
decode_message-Returns_example = decode_message-Returns cut_message
