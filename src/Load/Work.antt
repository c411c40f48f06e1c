-- ===== src/Load/Work.antt =====
-- load/concurrency/server/main.go. `sha256.Sum256` is the parameter `sum256`.
use go_network_lab.Base.{
  ℕ, zero, suc, ◌+◌, ◌/◌, ◌%◌, ◌≤◌, ◌<◌, ◌≡◌, refl, true, not, ltb, if◌then◌else◌, inl, inr,
  Bool-cases, List, [], ◌∷◌, ◌++◌, Bytes, codes, bytes_eq, length, take, Option, none, some, All,
  arith,
}
use go_network_lab.Base.Io.{IoError}
use go_network_lab.Load.Clients.{
  is_hex_digit, all_hex, is_done, Exchange, completes, goes_on, judge_work, replied,
}

-- `%x` of a byte.
abbrev pub hex_char : ℕ → ℕ
hex_char d = if ltb d 10 then 48 + d else 87 + d

unfoldable pub hex : Bytes → Bytes
hex [] = []
hex (b ∷ bs) = hex_char (b / 16 % 16) ∷ hex_char (b % 16) ∷ hex bs

-- How a read of a line ends.
pub data Request : Type 0 where
  line : Bytes → Request
  read_fails : IoError → Request

-- The response, `"DONE %x\n"` of the first four bytes.
unfoldable pub done_line : Bytes → Bytes
unfolding hex
done_line result = codes "DONE " ++ (hex (take 4 result) ++ codes "\n")

hex_char-digit : (d : ℕ) → d < 16 → is_hex_digit (hex_char d) ≡ true
hex_char-digit d h = ground arith

all_hex-hex : (s : Bytes) → all_hex (hex s) ≡ true
unfolding hex
all_hex-hex [] = refl
all_hex-hex (b ∷ bs) =
    let high = hex_char-digit (b / 16 % 16) (omega arith) in
    let low = hex_char-digit (b % 16) (omega arith) in rw (high, low) (all_hex-hex bs)

-- The client takes the line of a result of at least four bytes.
is_done-done_line : (result : Bytes) → 4 ≤ length result → is_done (done_line result) ≡ true
unfolding is_done done_line hex bytes_eq
is_done-done_line (a ∷ b ∷ c ∷ d ∷ rest) h = all_hex-hex (a ∷ b ∷ c ∷ d ∷ [])
is_done-done_line (a ∷ b ∷ c ∷ []) h = absurd (omega arith)
is_done-done_line (a ∷ b ∷ []) h = absurd (omega arith)
is_done-done_line (a ∷ []) h = absurd (omega arith)
is_done-done_line [] h = absurd (omega arith)

judge_work-done_line :
    (deadline : ℕ) (r : Exchange) (result : Bytes)
    → 4 ≤ length result
    → r.responded < deadline
    → judge_work deadline (record r { outcome = replied (done_line result) }) ≡ (completes, goes_on)
unfolding judge_work
judge_work-done_line deadline r result h t =
    let in_time : ltb r.responded deadline ≡ true = ground arith in
    rw (is_done-done_line result h, in_time) refl

module _ (sum256 : Bytes → Bytes) where
  unfoldable pub repeat_hash : ℕ → Bytes → Bytes
  repeat_hash zero hashed = hashed
  repeat_hash (suc n) hashed = repeat_hash n (sum256 hashed)

  -- `[32]byte{1}`
  abbrev pub first_data : Bytes
  first_data =
      1 ∷ 0 ∷ 0 ∷ 0 ∷ 0 ∷ 0 ∷ 0 ∷ 0 ∷ 0 ∷ 0 ∷ 0 ∷ 0 ∷ 0 ∷ 0 ∷ 0 ∷ 0 ∷ 0 ∷ 0 ∷ 0 ∷ 0 ∷ 0 ∷ 0 ∷ 0 ∷ 0
      ∷ 0 ∷ 0 ∷ 0 ∷ 0 ∷ 0 ∷ 0 ∷ 0 ∷ 0 ∷ []

  unfoldable pub do_work : Bytes
  unfolding repeat_hash
  do_work = repeat_hash 10000 first_data

  -- handleConnection: what the reads give, and which writes succeed; the result has the responses
  -- written. Where the writes or the reads run out, the handler waits.
  unfoldable pub answer_work : List Request → List (Option IoError) → List Bytes
  answer_work [] writes = []
  answer_work (read_fails e ∷ requests) writes = []
  answer_work (line s ∷ requests) [] = []
  answer_work (line s ∷ requests) (some e ∷ writes) = []
  answer_work (line s ∷ requests) (none ∷ writes) =
      let rest = answer_work requests writes in
      if not (bytes_eq s (codes "WORK\n")) then [] else done_line do_work ∷ rest

  module _ (sum256_Length : (s : Bytes) → length (sum256 s) ≡ 32) where
    repeat_hash-Length : (n : ℕ) (s : Bytes) → length s ≡ 32 → length (repeat_hash n s) ≡ 32
    unfolding repeat_hash
    repeat_hash-Length zero s h = h
    repeat_hash-Length (suc n) s h = repeat_hash-Length n (sum256 s) (sum256_Length s)

    length-do_work : length do_work ≡ 32
    unfolding do_work
    length-do_work = repeat_hash-Length 10000 first_data refl

    -- Every response that the server of load/concurrency writes is one that its client counts as
    -- completed, where it comes in time, if a hash has 32 bytes.
    answer_work-completes :
        (deadline : ℕ) (r : Exchange)
        → r.responded < deadline
        → (requests : List Request) (writes : List (Option IoError))
        → All
            (λ response.
              judge_work deadline (record r { outcome = replied response }) ≡ (completes, goes_on))
            (answer_work requests writes)
    unfolding answer_work
    answer_work-completes deadline r t [] writes = tt
    answer_work-completes deadline r t (read_fails e ∷ requests) writes = tt
    answer_work-completes deadline r t (line s ∷ requests) [] = tt
    answer_work-completes deadline r t (line s ∷ requests) (some e ∷ writes) = tt
    answer_work-completes deadline r t (line s ∷ requests) (none ∷ writes) =
        elim (Bool-cases (bytes_eq s (codes "WORK\n"))) [
          | inr f ↦ rw f tt
          | inl w ↦ rw w (
            judge_work-done_line deadline r do_work (omega (arith, length-do_work)) t,
            answer_work-completes deadline r t requests writes,
          )
        ]
