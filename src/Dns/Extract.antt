-- ===== src/Dns/Extract.antt =====
-- internal/dns/extract.go. An address is the 16 bytes that `net.IPv4` makes of four.
pub mod Meaning
use go_network_lab.Base.{
  ℕ, ◌+◌, Bool, not, ◌||◌, List, [], ◌∷◌, ◌++◌, Bytes, length, ◌==◌, if◌then◌else◌, Outcome, ok,
  err, ◌>>=◌, index,
}
use go_network_lab.Dns.Message.{Question, ResourceRecord, Message, type_a, class_in}
use go_network_lab.Dns.Validate.{equal_question_names}

-- `net.IPv4(a, b, c, d)`
abbrev pub ipv4 : ℕ → ℕ → ℕ → ℕ → Bytes
ipv4 a b c d = 0 ∷ 0 ∷ 0 ∷ 0 ∷ 0 ∷ 0 ∷ 0 ∷ 0 ∷ 0 ∷ 0 ∷ 255 ∷ 255 ∷ a ∷ b ∷ c ∷ d ∷ []

-- The answer's number, its RDLENGTH and the length of its RDATA.
pub data ExtractError : Type 0 where
  invalid_rdata_length : ℕ → ℕ → ℕ → ExtractError

-- The test under which the loop goes on to the next record.
unfoldable pub is_skipped : ResourceRecord → Question → Bool
is_skipped r q =
    not (r.rtype == type_a)
    || not (r.rclass == class_in)
    || not (equal_question_names r.name q.name)

unfoldable pub record_address : ResourceRecord → Outcome ExtractError Bytes
record_address r = do
  a ← index r.rdata 0
  b ← index r.rdata 1
  c ← index r.rdata 2
  d ← index r.rdata 3
  ok (ipv4 a b c d)

-- The loop over the answers, at answer `i`.
unfoldable pub extract_loop :
    ℕ → Question → List ResourceRecord → List Bytes → Outcome ExtractError (List Bytes)
unfolding record_address
extract_loop i q [] addresses = ok addresses
extract_loop i q (r ∷ rs) addresses =
    let skip = extract_loop (i + 1) q rs addresses in
    let add : Outcome ExtractError (List Bytes) = (do
      a ← record_address r
      extract_loop (i + 1) q rs (addresses ++ a ∷ [])) in
    if is_skipped r q
    then skip
    else if not (r.rdata_len == 4) || not (length r.rdata == 4)
    then err (invalid_rdata_length (i + 1) r.rdata_len (length r.rdata))
    else add

unfoldable pub extract_a_records : Message → Question → Outcome ExtractError (List Bytes)
unfolding extract_loop
extract_a_records m q =
    let found = extract_loop 0 q m.answers [] in
    if not (q.qtype == type_a) || not (q.qclass == class_in) then ok [] else found
