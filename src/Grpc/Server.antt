-- ===== src/Grpc/Server.antt =====
-- grpc/fundamentals/server/main.go: the handlers of the service.
pub mod Answers
pub mod Streams
use go_network_lab.Base.{
  ℕ, ◌+◌, ◌%◌, ◌^◌, ◌-◌, ◌≡◌, refl, Bool, true, false, ltb, if◌then◌else◌, Option, none, some, List,
  [], ◌∷◌, ◌++◌, Bytes, codes, null, bytes_eq, Outcome, ok, err, panic, stuck,
}
use go_network_lab.Base.Ints.{ℤ, pos, negsuc}
use go_network_lab.Base.Spaces.{trim_space}
use go_network_lab.Grpc.Service.{
  StockItem, ContextError, Code, invalid_argument, not_found, GrpcError, status, from_context_error,
  Signal, slow_operation_started, first_stock_item_sent, sync_stock_item_received, Event, offered,
  slow_completed, observed_cancellation, received, sent, Run, after_event, Wait, released, ended,
  RecvEnd, recv_eof, recv_failed,
}

-- Which channels of `inventoryServer` are not nil. `slowOperationStarted` is not tested for nil, as
-- the `default` of its `select` is taken then.
pub record InventoryServer : Type 0 where
  pub signals_first_item : Bool
  pub waits_after_first_item : Bool
  pub signals_sync_item : Bool
  pub waits_after_sync_item : Bool

-- `switch productID`
abbrev pub stock_of : Bytes → Outcome GrpcError Bool
stock_of product_id =
    if bytes_eq product_id (codes "keyboard")
    then ok true
    else if bytes_eq product_id (codes "monitor")
    then ok false
    else err (status not_found)

-- `if err := ctx.Err(); err != nil`, and what follows otherwise.
abbrev pub unless_done : {A : Type 0} → Option ContextError → Run A → Run A
unless_done none next = next
unless_done (some e) next = (err (from_context_error e), [])

-- The slow operation of five seconds, and what follows it.
abbrev pub slow_operation : {A : Type 0} → Wait → Run A → Run A
slow_operation released next =
    after_event (offered slow_operation_started) (after_event slow_completed next)
slow_operation (ended e) next =
    (err (from_context_error e), offered slow_operation_started ∷ observed_cancellation e ∷ [])

-- `wait` is how the select of the slow operation goes, and `ctx_err` what `ctx.Err()` returns; the
-- result is `Available` of the response.
unfoldable pub check_product : Wait → Option ContextError → Bytes → Run Bool
check_product wait ctx_err product_id =
    let answer = unless_done ctx_err (stock_of product_id, []) in
    if null product_id
    then (err (status invalid_argument), [])
    else if bytes_eq product_id (codes "slow-item")
    then slow_operation wait answer
    else answer

unfoldable pub check_stock : Wait → Option ContextError → Bytes → Run Bool
unfolding trim_space check_product
check_stock wait ctx_err requested = check_product wait ctx_err (trim_space requested)

abbrev pub stock_item : Bytes → Bool → StockItem
stock_item id is_available = record { product_id = id; available = is_available }

abbrev pub stock_list : List StockItem
stock_list =
    stock_item (codes "keyboard") true
    ∷ stock_item (codes "monitor") false
    ∷ stock_item (codes "mouse") true
    ∷ []

-- The offer of a signal on a channel that may be nil.
abbrev pub offer : {A : Type 0} → Bool → Signal → Run A → Run A
offer true signal next = after_event (offered signal) next
offer false signal next = next

-- `stream.Send(item)`: `none` where it succeeds; without a result, it does not return.
abbrev pub send_item : {A : Type 0} → StockItem → List (Option GrpcError) → Run A → Run A
send_item item [] next = (stuck, [])
send_item item (none ∷ results) next = after_event (sent item) next
send_item item (some e ∷ results) next = (err e, [])

-- A select between the channel and `stream.Context().Done()`; without a result, it does not return.
abbrev pub wait_for : {A : Type 0} → List Wait → Run A → Run A
wait_for [] next = (stuck, [])
wait_for (released ∷ waits) next = next
wait_for (ended e ∷ waits) next = (err (from_context_error e), [])

abbrev pub rest_of : {A : Type 0} → List A → List A
rest_of [] = []
rest_of (x ∷ xs) = xs

-- The select behind an item, where there is a channel to wait for.
abbrev pub wait_if : {A : Type 0} → Bool → List Wait → Run A → Run A
wait_if true waits next = wait_for waits next
wait_if false waits next = next

-- The two hooks behind the first item.
abbrev pub after_keyboard : {A : Type 0} → InventoryServer → StockItem → List Wait → Run A → Run A
after_keyboard s item waits next =
    if bytes_eq item.product_id (codes "keyboard")
    then offer s.signals_first_item first_stock_item_sent
        (wait_if s.waits_after_first_item waits next)
    else next

-- What `ctx.Err()` returns in the next round, and nil when the list is used up.
abbrev pub first_of : List (Option ContextError) → Option ContextError
first_of [] = none
first_of (d ∷ ds) = d

-- The loop of `ListStock` over the items that are left; `ctx_err` is what `ctx.Err()` returns in each
-- round, and `sends` what `Send` returns.
unfoldable pub list_loop :
    InventoryServer
    → List StockItem
    → List (Option ContextError)
    → List (Option GrpcError)
    → List Wait
    → Run (Unit {0})
list_loop s [] ctx_err sends waits = (ok tt, [])
list_loop s (item ∷ items) ctx_err sends waits =
    let rest = list_loop s items (rest_of ctx_err) (rest_of sends) waits in
    unless_done (first_of ctx_err) (send_item item sends (after_keyboard s item waits rest))

unfoldable pub list_stock :
    InventoryServer
    → List (Option ContextError)
    → List (Option GrpcError)
    → List Wait
    → Run (Unit {0})
unfolding list_loop
list_stock s ctx_err sends waits = list_loop s stock_list ctx_err sends waits

abbrev pub recv_result : RecvEnd → Outcome GrpcError (Unit {0})
recv_result recv_eof = ok tt
recv_result (recv_failed e) = err e

-- The loop of `SyncStock`: the stream delivers the items and then ends.
unfoldable pub sync_stock :
    InventoryServer
    → List StockItem
    → RecvEnd
    → List (Option GrpcError)
    → List Wait
    → Run (Unit {0})
sync_stock s [] end sends waits = (recv_result end, [])
sync_stock s (item ∷ items) end sends waits =
    let rest = sync_stock s items end (rest_of sends) (rest_of waits) in
    offer s.signals_sync_item sync_stock_item_received (
      wait_if s.waits_after_sync_item waits
        (after_event (received item) (send_item item sends rest)))

-- An `int32` by its bit pattern.
abbrev pub int32 : ℕ → ℤ
int32 n = if ltb n (2 ^ 31) then pos n else negsuc (2 ^ 32 - 1 - n)

-- `n++` on a variable of type `int32`, by bit patterns.
abbrev pub int32_inc : ℕ → ℕ
int32_inc n = (n + 1) % 2 ^ 32

pub record StockReportResponse : Type 0 where
  pub received_count : ℤ
  pub available_count : ℤ

-- The loop of `ReportStock`, with its two counters; `closes` is what `SendAndClose` returns. The
-- value is the response that was sent.
unfoldable pub report_loop :
    ℕ → ℕ → List StockItem → RecvEnd → Option GrpcError → Outcome GrpcError StockReportResponse
report_loop r a [] (recv_failed e) closes = err e
report_loop r a [] recv_eof (some e) = err e
report_loop r a [] recv_eof none = ok record { received_count = int32 r; available_count = int32 a }
report_loop r a (item ∷ items) end closes =
    report_loop (int32_inc r) (if item.available then int32_inc a else a) items end closes

unfoldable pub report_stock :
    List StockItem → RecvEnd → Option GrpcError → Outcome GrpcError StockReportResponse
unfolding report_loop
report_stock items end closes = report_loop 0 0 items end closes
