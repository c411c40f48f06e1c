-- ===== src/Dns/Validate/Meaning.antt =====
-- What a response must be to pass `ValidateResponse`.
use go_network_lab.Base.{
  ℕ, suc, ◌/◌, ◌%◌, ◌<◌, ◌≡◌, ◌≢◌, refl, ap, ◌↔◌, ◌⊎◌, inl, inr, true, List, [], ◌∷◌, map, none,
  some, arith, Bytes, length, ◌==◌, Bool-cases, if◌then◌else◌, u16_mod, bit_and_bit15, bit_and_bit9,
  bit_and_low4, ok, err, panic, stuck, Outcome-cases, index,
}
use go_network_lab.Base.Strings.{trim_suffix}
use go_network_lab.Dns.Message.{Question, Message}
use go_network_lab.Dns.Encode.{dot}
use go_network_lab.Dns.Decode.{is_response, is_truncated, response_code}
use go_network_lab.Dns.Validate.{
  Mismatch, fold_case, equal_folded, equal_question_names, validate_question, validate_response,
  validate_rcode,
}

-- A name as the comparison sees it: without a trailing dot, and in lower case.
abbrev pub canonical : Bytes → Bytes
canonical name = map fold_case (trim_suffix dot name)

equal_folded_iff :
    (a b : Bytes)
    → length a ≡ length b
    → (equal_folded a b ≡ true) ↔ (map fold_case a ≡ map fold_case b)
unfolding equal_folded
equal_folded_iff [] [] h = ground arith
equal_folded_iff [] (y ∷ b) h = absurd (omega arith)
equal_folded_iff (x ∷ a) [] h = absurd (omega arith)
equal_folded_iff (x ∷ a) (y ∷ b) h = ground (arith, equal_folded_iff a b (omega arith))

length-map : (a : Bytes) → length (map fold_case a) ≡ length a
length-map [] = refl
length-map (x ∷ a) = ap suc (length-map a)

-- `equalQuestionNames` compares two names as DNS does: case and one trailing dot aside.
pub equal_question_names_iff :
    (a b : Bytes) → (equal_question_names a b ≡ true) ↔ (canonical a ≡ canonical b)
unfolding equal_question_names
equal_question_names_iff a b =
    elim (Bool-cases (length (trim_suffix dot a) == length (trim_suffix dot b))) [
      | inl same ↦ rw same (equal_folded_iff (trim_suffix dot a) (trim_suffix dot b) (ground arith))
      | inr other ↦ rw other (
        λ e. cc,
        λ (e : canonical a ≡ canonical b). absurd (
            ground
              (arith, ap length e, length-map (trim_suffix dot a), length-map (trim_suffix dot b))),
      )
    ]

-- The flag bits by their place in the word.
is_response_iff : (f : ℕ) → f < u16_mod → (is_response f ≡ true) ↔ (f / 0x8000 % 2 ≡ 1)
unfolding is_response
is_response_iff f h = ground (arith, bit_and_bit15 f h)

is_truncated_iff : (f : ℕ) → f < u16_mod → (is_truncated f ≡ true) ↔ (f / 0x200 % 2 ≡ 1)
unfolding is_truncated
is_truncated_iff f h = ground (arith, bit_and_bit9 f h)

-- The response answers the query: its ID, QR bit and only question are those of the query.
pub record Answers (m : Message) (query_id : ℕ) (q : Question) : Type 0 where
  pub same_id : m.header.id ≡ query_id
  pub response : is_response m.header.flags ≡ true
  pub one_declared : m.header.qd_count ≡ 1
  pub received : Question
  pub only : m.questions ≡ received ∷ []
  pub same_name : canonical received.name ≡ canonical q.name
  pub same_type : received.qtype ≡ q.qtype
  pub same_class : received.qclass ≡ q.qclass

validate_question-eq-ok :
    (r q : Question)
    → validate_question r q ≡ ok tt
    → (canonical r.name ≡ canonical q.name) × (r.qtype ≡ q.qtype) × (r.qclass ≡ q.qclass)
unfolding validate_question
validate_question-eq-ok r q h = ground (arith, equal_question_names_iff r.name q.name)

only_one : (qs : List Question) → length qs ≡ 1 → (r : Question) × (qs ≡ r ∷ [])
only_one [] h = absurd (omega arith)
only_one (r ∷ []) h = (r, refl)
only_one (r ∷ s ∷ qs) h = absurd (omega arith)

counted_one :
    (m : Message) (id : ℕ) (q : Question)
    → validate_response m id q ≡ ok tt
    → length m.questions ≡ 1
unfolding validate_response
counted_one m id q h = ground arith

validate_response-to :
    (m : Message) (id : ℕ) (q : Question) → validate_response m id q ≡ ok tt → Answers m id q
unfolding validate_response index
validate_response-to m id q h =
    let (r, e) = only_one m.questions (counted_one m id q h) in
    let good : validate_question r q ≡ ok tt = ground arith in
    let (name, qtype, qclass) = validate_question-eq-ok r q good in
    record {
      same_id = ground arith;
      response = ground arith;
      one_declared = ground arith;
      received = r;
      only = e;
      same_name = name;
      same_type = qtype;
      same_class = qclass;
    }

validate_response-from :
    (m : Message) (id : ℕ) (q : Question) → Answers m id q → validate_response m id q ≡ ok tt
unfolding validate_response index validate_question
validate_response-from m id q a = ground (arith, equal_question_names_iff a.received.name q.name)

-- `ValidateResponse` accepts exactly the answers to the query: the transaction ID is that of the
-- query, QR is set, and the only question is the one sent, but for the case and the trailing dot
-- of its name.
pub validate_response_iff :
    (m : Message) (id : ℕ) (q : Question) → (validate_response m id q ≡ ok tt) ↔ Answers m id q
validate_response_iff m id q = (validate_response-to m id q, validate_response-from m id q)

module _ (m : Message) (id : ℕ) (q : Question) where
  panic_counted : validate_response m id q ≡ panic → length m.questions ≡ 1
  unfolding validate_response
  panic_counted h = ground arith

  validate_response-ne-panic : validate_response m id q ≢ panic
  unfolding validate_response index validate_question
  validate_response-ne-panic h = let (r, e) = only_one m.questions (panic_counted h) in ground arith

  stuck_counted : validate_response m id q ≡ stuck → length m.questions ≡ 1
  unfolding validate_response
  stuck_counted h = ground arith

  validate_response-ne-stuck : validate_response m id q ≢ stuck
  unfolding validate_response index validate_question
  validate_response-ne-stuck h = let (r, e) = only_one m.questions (stuck_counted h) in ground arith

  -- `ValidateResponse` returns: it never indexes an empty list of questions.
  pub validate_response-settles :
      (validate_response m id q ≡ ok tt) ⊎ ((e : Mismatch) × (validate_response m id q ≡ err e))
  validate_response-settles = elim (Outcome-cases (validate_response m id q)) [
    | inl (u, e) ↦ inl e
    | inr (inl refused) ↦ inr refused
    | inr (inr (inl p)) ↦ absurd (validate_response-ne-panic p)
    | inr (inr (inr s)) ↦ absurd (validate_response-ne-stuck s)
  ]

-- `validateRCode` reports the low four bits of flags of 16 bits, and nothing when they are zero.
validate_rcode_lem :
    (m : Message)
    → m.header.flags < u16_mod
    → validate_rcode m ≡ (if m.header.flags % 16 == 0 then none else some (m.header.flags % 16))
unfolding validate_rcode response_code
validate_rcode_lem m h = ground (arith, bit_and_low4 m.header.flags h)
