-- ===== src/Grpc/Server/Answers.antt =====
-- What CheckStock and ReportStock of grpc/fundamentals/server/main.go answer.
use go_network_lab.Base.{
  ℕ, suc, ◌+◌, ◌%◌, ◌^◌, ◌<◌, ◌≤◌, ◌≡◌, ◌≢◌, refl, ap, ◌∙◌, ◌⊎◌, inl, inr, Bool, true, false,
  Bool-cases, if◌then◌else◌, Option, none, some, List, [], ◌∷◌, Bytes, codes, bytes_eq,
  bytes_eq_iff, Outcome, ok, err, panic, stuck, length, arith,
}
use mathlib.Core.Path.{ap₂}
use go_network_lab.Base.Ints.{pos}
use go_network_lab.Base.Spaces.{trim_space}
use go_network_lab.Grpc.Service.{
  StockItem, ContextError, canceled, invalid_argument, deadline_exceeded, not_found,
  unauthenticated, GrpcError, status, transport, context_canceled, context_deadline_exceeded, Wait,
  released, ended, recv_eof,
}
use go_network_lab.Grpc.Server.{
  check_product, check_stock, slow_operation, unless_done, int32_inc, stock_of, report_loop,
  report_stock, int32, StockReportResponse,
}

abbrev keyboard : Bytes
keyboard = codes "keyboard"

abbrev monitor : Bytes
monitor = codes "monitor"

abbrev slow_item : Bytes
slow_item = codes "slow-item"

differs : (p : Bytes) {q : Bytes} → bytes_eq p q ≡ false → p ≢ q
differs p {q} e s = let same = (bytes_eq_iff p q).1 s in cc

-- The context ended with this error in the slow operation, or before the answer.
abbrev pub Interrupted : Wait → Option ContextError → Bytes → ContextError → Type 0
Interrupted wait ctx_err p e = (p ≡ slow_item × (wait ≡ ended e)) ⊎ (p ≢ [] × (ctx_err ≡ some e))

-- Why a call with the trimmed ID `p` may have this outcome.
abbrev pub Explained : Wait → Option ContextError → Bytes → Outcome GrpcError Bool → Type 0
Explained wait ctx_err p (ok true) = p ≡ keyboard × (ctx_err ≡ none)
Explained wait ctx_err p (ok false) = p ≡ monitor × (ctx_err ≡ none)
Explained wait ctx_err p (err (status invalid_argument)) = p ≡ []
Explained wait ctx_err p (err (status not_found)) =
    p ≢ [] × p ≢ keyboard × p ≢ monitor × (ctx_err ≡ none) × (p ≢ slow_item ⊎ (wait ≡ released))
Explained wait ctx_err p (err (status canceled)) = Interrupted wait ctx_err p context_canceled
Explained wait ctx_err p (err (status deadline_exceeded)) =
    Interrupted wait ctx_err p context_deadline_exceeded
Explained wait ctx_err p (err (status unauthenticated)) = ⊥
Explained wait ctx_err p (err (transport n)) = ⊥
Explained wait ctx_err p panic = ⊥
Explained wait ctx_err p stuck = ⊥

stock_of-Explained :
    (wait : Wait) (p : Bytes)
    → p ≢ []
    → (p ≢ slow_item) ⊎ (wait ≡ released)
    → Explained wait none p (stock_of p)
stock_of-Explained wait p n s = elim (Bool-cases (bytes_eq p keyboard)) [
  | inl k ↦ rw k ((bytes_eq_iff p keyboard).0 k, refl)
  | inr k ↦ elim (Bool-cases (bytes_eq p monitor)) [
    | inl m ↦ rw (k, m) ((bytes_eq_iff p monitor).0 m, refl)
    | inr m ↦ rw (k, m) (n, differs p k, differs p m, refl, s)
  ]
]

answer-Explained :
    (wait : Wait) (ctx_err : Option ContextError) (p : Bytes)
    → p ≢ []
    → (p ≢ slow_item) ⊎ (wait ≡ released)
    → Explained wait ctx_err p ((unless_done ctx_err (stock_of p, [])).0)
answer-Explained wait none p n s = stock_of-Explained wait p n s
answer-Explained wait (some context_canceled) p n s = inr (n, refl)
answer-Explained wait (some context_deadline_exceeded) p n s = inr (n, refl)

slow_operation-Explained :
    (wait : Wait) (ctx_err : Option ContextError) (p : Bytes)
    → p ≢ []
    → p ≡ slow_item
    → Explained wait ctx_err p ((slow_operation wait (unless_done ctx_err (stock_of p, []))).0)
slow_operation-Explained released ctx_err p n s = answer-Explained released ctx_err p n (inr refl)
slow_operation-Explained (ended context_canceled) ctx_err p n s = inl (s, refl)
slow_operation-Explained (ended context_deadline_exceeded) ctx_err p n s = inl (s, refl)

check_product-Explained :
    (wait : Wait) (ctx_err : Option ContextError) (p : Bytes)
    → Explained wait ctx_err p ((check_product wait ctx_err p).0)
unfolding check_product
check_product-Explained wait ctx_err [] = refl
check_product-Explained wait ctx_err (c ∷ cs) =
    let p = c ∷ cs in
    let n : p ≢ [] = λ e. cc in
    elim (Bool-cases (bytes_eq p slow_item)) [
      | inl s ↦ rw s (slow_operation-Explained wait ctx_err p n ((bytes_eq_iff p slow_item).0 s))
      | inr s ↦ rw s (answer-Explained wait ctx_err p n (inl (differs p s)))
    ]

-- CheckStock answers by the trimmed ID: it returns exactly for a keyboard, which is available, and a
-- monitor, which is not, and only while the context is not done; it reports InvalidArgument only for
-- an empty ID, NotFound only for one that is neither, when the context is not done and the slow
-- operation, if any, was not interrupted, and Canceled or DeadlineExceeded only as the context ended.
pub check_stock-Explained :
    (wait : Wait) (ctx_err : Option ContextError) (requested : Bytes)
    → Explained wait ctx_err (trim_space requested) ((check_stock wait ctx_err requested).0)
unfolding check_stock
check_stock-Explained wait ctx_err requested =
    check_product-Explained wait ctx_err (trim_space requested)

-- How many of the items are available.
unfoldable pub count_available : List StockItem → ℕ
count_available [] = 0
count_available (item ∷ items) =
    if item.available then count_available items + 1 else count_available items

abbrev counts : ℕ → ℕ → StockReportResponse
counts r a = record { received_count = int32 r; available_count = int32 a }

-- The counters hold the numbers of items and of available ones modulo 2 ^ 32.
report_loop-counts :
    (r a : ℕ) (items : List StockItem)
    → r < 2 ^ 32
    → a < 2 ^ 32
    → report_loop r a items recv_eof none
      ≡ ok (counts ((r + length items) % 2 ^ 32) ((a + count_available items) % 2 ^ 32))
unfolding report_loop count_available
report_loop-counts r a [] hr ha = ap₂ (λ x y. ok (counts x y)) (omega arith) (omega arith)
report_loop-counts r a (item ∷ items) hr ha =
    let n = length items in
    let r' : int32_inc r < 2 ^ 32 = omega arith in
    let received : (int32_inc r + n) % 2 ^ 32 ≡ (r + suc n) % 2 ^ 32 = omega arith in
    elim (Bool-cases item.available) [
      | inl v ↦
          let k = count_available items in
          let a' : int32_inc a < 2 ^ 32 = omega arith in
          let found : (int32_inc a + k) % 2 ^ 32 ≡ (a + (k + 1)) % 2 ^ 32 = omega arith in
          rw v (
            report_loop-counts (int32_inc r) (int32_inc a) items r' a'
            ∙ ap₂ (λ x y. ok (counts x y)) received found)
      | inr v ↦ rw v (
          report_loop-counts (int32_inc r) a items r' ha
          ∙ ap (λ x. ok (counts x ((a + count_available items) % 2 ^ 32))) received)
    ]

count_available-le : (items : List StockItem) → count_available items ≤ length items
unfolding count_available
count_available-le [] = omega arith
count_available-le (item ∷ items) = ground (arith, count_available-le items)

int32_small : (n : ℕ) → n < 2 ^ 31 → int32 ((0 + n) % 2 ^ 32) ≡ pos n
int32_small n h = let e : (0 + n) % 2 ^ 32 ≡ n = omega arith in rw e (ground arith)

-- ReportStock, when the client has sent fewer than 2 ^ 31 items and ended the stream, answers with
-- how many items it was sent and how many of these are available; neither `int32` wraps.
pub report_stock-counts :
    (items : List StockItem)
    → length items < 2 ^ 31
    → report_stock items recv_eof none
      ≡ ok record {
        received_count = pos (length items);
        available_count = pos (count_available items);
      }
unfolding report_stock
report_stock-counts items h =
    report_loop-counts 0 0 items (omega arith) (omega arith)
    ∙ ap₂ (λ x y. ok record { received_count = x; available_count = y })
        (int32_small (length items) h)
        (int32_small (count_available items) (omega (arith, count_available-le items)))
