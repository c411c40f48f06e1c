-- ===== src/Dns/Validate.antt =====
-- internal/dns/validate.go and internal/dns/rcode.go. A returned `error` is an option.
pub mod Meaning
use Prim.Native.String.{String}
use go_network_lab.Base.{
  ℕ, ◌+◌, Bool, true, false, not, ◌&&◌, List, [], ◌∷◌, Option, none, some, Bytes, length, leb, ◌==◌,
  if◌then◌else◌, Outcome, ok, err, ◌>>=◌, ◌>>◌, fail_if, index,
}
use go_network_lab.Base.Strings.{trim_suffix}
use go_network_lab.Dns.Message.{Header, Question, Message}
use go_network_lab.Dns.Encode.{dot}
use go_network_lab.Dns.Decode.{is_response, response_code}

-- The messages of `fmt.Errorf`, with what was got and, but for the counts, what was wanted.
pub data Mismatch : Type 0 where
  id_mismatch : ℕ → ℕ → Mismatch
  qr_not_set : Mismatch
  qd_count_mismatch question_count_mismatch : ℕ → Mismatch
  name_mismatch : Bytes → Bytes → Mismatch
  type_mismatch class_mismatch : ℕ → ℕ → Mismatch

-- `if x >= 'A' && x <= 'Z' { x += 'a' - 'A' }`
unfoldable pub fold_case : ℕ → ℕ
fold_case x = if leb b'A' x && leb x b'Z' then x + 32 else x

-- The loop over the bytes of two names of one length.
unfoldable pub equal_folded : Bytes → Bytes → Bool
equal_folded (x ∷ a) (y ∷ b) =
    let rest = equal_folded a b in if not (fold_case x == fold_case y) then false else rest
equal_folded _ _ = true

unfoldable pub equal_question_names : Bytes → Bytes → Bool
unfolding equal_folded
equal_question_names a b =
    let a' = trim_suffix dot a in
    let b' = trim_suffix dot b in if not (length a' == length b') then false else equal_folded a' b'

-- The tests on `message.Questions[0]`.
unfoldable pub validate_question : Question → Question → Outcome Mismatch (Unit {0})
validate_question received wanted = do
  fail_if (not (equal_question_names received.name wanted.name))
      (name_mismatch received.name wanted.name)
  fail_if (not (received.qtype == wanted.qtype)) (type_mismatch received.qtype wanted.qtype)
  fail_if (not (received.qclass == wanted.qclass)) (class_mismatch received.qclass wanted.qclass)
  ok tt

unfoldable pub validate_response : Message → ℕ → Question → Outcome Mismatch (Unit {0})
validate_response m query_id question = do
  fail_if (not (m.header.id == query_id)) (id_mismatch m.header.id query_id)
  fail_if (not (is_response m.header.flags)) qr_not_set
  fail_if (not (m.header.qd_count == 1)) (qd_count_mismatch m.header.qd_count)
  fail_if (not (length m.questions == 1)) (question_count_mismatch (length m.questions))
  received ← index m.questions 0
  validate_question received question

-- The `*DNSResponseError` that is returned, by its code.
unfoldable pub validate_rcode : Message → Option ℕ
validate_rcode m = let code = response_code m.header.flags in if code == 0 then none else some code

-- The name in `DNSResponseError.Error`.
unfoldable pub rcode_name : ℕ → String
rcode_name code =
    if code == 1
    then "FORMERR"
    else if code == 2
    then "SERVFAIL"
    else if code == 3
    then "NXDOMAIN"
    else if code == 4
    then "NOTIMP"
    else if code == 5
    then "REFUSED"
    else "unknown RCODE"
