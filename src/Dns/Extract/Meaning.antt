-- ===== src/Dns/Extract/Meaning.antt =====
-- Which addresses `ExtractARecords` returns, and when it fails.
use go_network_lab.Base.{
  ℕ, ◌+◌, ◌≡◌, ◌≢◌, refl, sym, ◌∙◌, ◌⊎◌, inl, inr, true, false, not, ◌||◌, List, [], ◌∷◌, ◌++◌,
  append-nil, append_assoc, arith, Bytes, length, ◌==◌, Bool-cases, Outcome, ok, err, panic, stuck,
  index,
}
use go_network_lab.Dns.Message.{Question, ResourceRecord, Message, type_a, class_in}
use go_network_lab.Dns.Validate.Meaning.{canonical, equal_question_names_iff}
use go_network_lab.Dns.Extract.{
  ipv4, ExtractError, invalid_rdata_length, is_skipped, record_address, extract_loop,
  extract_a_records,
}

-- An A/IN record for the name that was asked.
pub record Matches (q : Question) (r : ResourceRecord) : Type 0 where
  pub is_a : r.rtype ≡ type_a
  pub is_in : r.rclass ≡ class_in
  pub same_name : canonical r.name ≡ canonical q.name

-- The addresses of the matching answers, each of four bytes, in the order of the answers.
pub data Addresses (q : Question) : List ResourceRecord → List Bytes → Type 0 where
  none_left : Addresses q [] []
  other :
      {r : ResourceRecord} {rs : List ResourceRecord} {found : List Bytes}
      → ¬ Matches q r
      → Addresses q rs found
      → Addresses q (r ∷ rs) found
  address :
      {r : ResourceRecord} {rs : List ResourceRecord} {found : List Bytes} (a b c d : ℕ)
      → Matches q r
      → r.rdata_len ≡ 4
      → r.rdata ≡ a ∷ b ∷ c ∷ d ∷ []
      → Addresses q rs found
      → Addresses q (r ∷ rs) (ipv4 a b c d ∷ found)

-- The first matching answer whose RDLENGTH or RDATA is not of four bytes, by its number.
pub data FirstInvalid (q : Question) : ℕ → List ResourceRecord → ExtractError → Type 0 where
  invalid_here :
      {i : ℕ} {r : ResourceRecord} {rs : List ResourceRecord}
      → Matches q r
      → (r.rdata_len ≢ 4) ⊎ (length r.rdata ≢ 4)
      → FirstInvalid q i (r ∷ rs) (invalid_rdata_length (i + 1) r.rdata_len (length r.rdata))
  invalid_later :
      {i : ℕ} {r : ResourceRecord} {rs : List ResourceRecord} {e : ExtractError}
      → (Matches q r → (r.rdata_len ≡ 4) × (length r.rdata ≡ 4))
      → FirstInvalid q (i + 1) rs e
      → FirstInvalid q i (r ∷ rs) e

is_skipped_iff :
    (r : ResourceRecord) (q : Question)
    → ((is_skipped r q ≡ true) × ¬ Matches q r) ⊎ ((is_skipped r q ≡ false) × Matches q r)
unfolding is_skipped
is_skipped_iff r q = elim (Bool-cases (is_skipped r q)) [
  | inl skip ↦
      inl (skip, λ (h : Matches q r). ground (arith, equal_question_names_iff r.name q.name))
  | inr keep ↦ inr (keep, ground (arith, equal_question_names_iff r.name q.name))
]

four_bytes :
    (bs : Bytes) → length bs ≡ 4 → (a : ℕ) × (b : ℕ) × (c : ℕ) × (d : ℕ) × (bs ≡ a ∷ b ∷ c ∷ d ∷ [])
four_bytes (a ∷ b ∷ c ∷ d ∷ []) h = (a, b, c, d, refl)
four_bytes [] h = absurd (omega arith)
four_bytes (a ∷ []) h = absurd (omega arith)
four_bytes (a ∷ b ∷ []) h = absurd (omega arith)
four_bytes (a ∷ b ∷ c ∷ []) h = absurd (omega arith)
four_bytes (a ∷ b ∷ c ∷ d ∷ e ∷ bs) h = absurd (omega arith)

record_address-four_bytes :
    (r : ResourceRecord) (a b c d : ℕ)
    → r.rdata ≡ a ∷ b ∷ c ∷ d ∷ []
    → record_address r ≡ ok (ipv4 a b c d)
unfolding record_address index
record_address-four_bytes r a b c d e = rw e

-- What the call returns: the addresses, or the first answer that is malformed.
abbrev pub Extracted :
    Question → ℕ → List ResourceRecord → List Bytes → Outcome ExtractError (List Bytes) → Type 0
Extracted q i rs before (ok all) =
    (found : List Bytes) × (all ≡ before ++ found) × Addresses q rs found
Extracted q i rs before (err e) = FirstInvalid q i rs e
Extracted q i rs before panic = ⊥
Extracted q i rs before stuck = ⊥

-- One answer in front of the others.
Extracted-other :
    (q : Question) (i : ℕ) (r : ResourceRecord) (rs : List ResourceRecord) (before : List Bytes)
    (m : Outcome ExtractError (List Bytes))
    → ¬ Matches q r
    → Extracted q (i + 1) rs before m
    → Extracted q i (r ∷ rs) before m
Extracted-other q i r rs before (ok all) n (found, e, w) = (found, e, other n w)
Extracted-other q i r rs before (err e) n w = invalid_later (λ h. absurd (n h)) w
Extracted-other q i r rs before panic n w = w
Extracted-other q i r rs before stuck n w = w

Extracted-address :
    (q : Question) (i : ℕ) (r : ResourceRecord) (rs : List ResourceRecord) (before : List Bytes)
    (a b c d : ℕ) (m : Outcome ExtractError (List Bytes))
    → Matches q r
    → r.rdata_len ≡ 4
    → r.rdata ≡ a ∷ b ∷ c ∷ d ∷ []
    → Extracted q (i + 1) rs (before ++ ipv4 a b c d ∷ []) m
    → Extracted q i (r ∷ rs) before m
Extracted-address q i r rs before a b c d (ok all) h l e (found, eq, w) = (
  ipv4 a b c d ∷ found,
  eq ∙ append_assoc before (ipv4 a b c d ∷ []) found,
  address a b c d h l e w,
)
Extracted-address q i r rs before a b c d (err x) h l e w = invalid_later (λ _. (l, rw e refl)) w
Extracted-address q i r rs before a b c d panic h l e w = w
Extracted-address q i r rs before a b c d stuck h l e w = w

wrong_length : (a b : ℕ) → (not (a == 4) || not (b == 4)) ≡ true → (a ≢ 4) ⊎ (b ≢ 4)
wrong_length a b h = elim (Bool-cases (a == 4)) [
  | inl four ↦ inr (λ (e : b ≡ 4). ground arith)
  | inr differs ↦ inl (λ (e : a ≡ 4). ground arith)
]

extract_loop-Extracted :
    (i : ℕ) (q : Question) (rs : List ResourceRecord) (before : List Bytes)
    → Extracted q i rs before (extract_loop i q rs before)
unfolding extract_loop
extract_loop-Extracted i q [] before = ([], sym (append-nil before), none_left)
extract_loop-Extracted i q (r ∷ rs) before = elim (is_skipped_iff r q) [
  | inl (skip, n) ↦
      rw skip (Extracted-other q i r rs before _ n (extract_loop-Extracted (i + 1) q rs before))
  | inr (keep, h) ↦ elim (Bool-cases (not (r.rdata_len == 4) || not (length r.rdata == 4))) [
    | inl bad ↦ rw (keep, bad) (invalid_here h (wrong_length r.rdata_len (length r.rdata) bad))
    | inr good ↦
        let (a, b, c, d, e) = four_bytes r.rdata (ground arith) in
        rw (keep, good, record_address-four_bytes r a b c d e)
          (Extracted-address q i r rs before a b c d _ h (ground arith) e
            (extract_loop-Extracted (i + 1) q rs (before ++ ipv4 a b c d ∷ [])))
  ]
]

-- For an A/IN question `ExtractARecords` returns the addresses of the matching answers in order, or
-- fails at the first matching answer that does not hold four bytes. It does nothing else.
pub extract_a_records-Extracted :
    (m : Message) (q : Question)
    → q.qtype ≡ type_a
    → q.qclass ≡ class_in
    → Extracted q 0 m.answers [] (extract_a_records m q)
unfolding extract_a_records
extract_a_records-Extracted m q t c =
    let is_a : (q.qtype == type_a) ≡ true = ground arith in
    let is_in : (q.qclass == class_in) ≡ true = ground arith in
    rw (is_a, is_in) (extract_loop-Extracted 0 q m.answers [])
