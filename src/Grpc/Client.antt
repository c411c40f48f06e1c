-- ===== src/Grpc/Client.antt =====
-- grpc/fundamentals/client/main.go: the functions that call the service.
pub mod Exchange
use go_network_lab.Base.{
  ℕ, zero, suc, ◌≡◌, refl, Bool, true, false, if◌then◌else◌, Option, none, some, List, [], ◌∷◌,
  Outcome, ok, err, panic, stuck, ◌>>◌, ◌>>=◌,
}
use go_network_lab.Base.Ints.{ℤ, pos, negsuc, not_positive}
use go_network_lab.Grpc.Service.{StockItem, GrpcError, RecvEnd, recv_eof, recv_failed}
use go_network_lab.Grpc.Server.{StockReportResponse, stock_list, rest_of}

-- The errors, by the call that failed, with what they wrap.
pub data ClientError : Type 0 where
  list_failed receive_failed start_failed close_failed report_failed : GrpcError → ClientError
  send_failed : StockItem → GrpcError → ClientError
  limit_must_be_positive : ClientError

-- `if err != nil { return fmt.Errorf("…: %w", err) }`
abbrev pub check_call :
    (GrpcError → ClientError) → Option GrpcError → Outcome ClientError (Unit {0})
check_call wrap none = ok tt
check_call wrap (some e) = err (wrap e)

-- The loop that receives until the end, with the items it logs.
abbrev pub logged :
    StockItem
    → Outcome ClientError (Unit {0}) × List StockItem
    → Outcome ClientError (Unit {0}) × List StockItem
logged item (r, items) = (r, item ∷ items)

unfoldable pub receive_all :
    List StockItem → RecvEnd → Outcome ClientError (Unit {0}) × List StockItem
receive_all [] recv_eof = (ok tt, [])
receive_all [] (recv_failed e) = (err (receive_failed e), [])
receive_all (item ∷ items) end = logged item (receive_all items end)

-- What follows a call that returned without an error.
abbrev pub then_do :
    Outcome ClientError (Unit {0})
    → Outcome ClientError (Unit {0}) × List StockItem
    → Outcome ClientError (Unit {0}) × List StockItem
then_do (ok tt) next = next
then_do (err e) next = (err e, [])
then_do panic next = (panic, [])
then_do stuck next = (stuck, [])

-- `started` is the error of the call that opens the stream.
unfoldable pub list_stock :
    Option GrpcError → List StockItem → RecvEnd → Outcome ClientError (Unit {0}) × List StockItem
unfolding receive_all
list_stock started items end = then_do (check_call list_failed started) (receive_all items end)

-- The loop of `listFirstStockItems`, for as many rounds as are left.
unfoldable pub receive_first :
    ℕ → List StockItem → RecvEnd → Outcome ClientError (Unit {0}) × List StockItem
receive_first zero items end = (ok tt, [])
receive_first (suc n) [] recv_eof = (ok tt, [])
receive_first (suc n) [] (recv_failed e) = (err (receive_failed e), [])
receive_first (suc n) (item ∷ items) end = logged item (receive_first n items end)

abbrev pub rounds : ℤ → ℕ
rounds (pos n) = n
rounds (negsuc n) = 0

unfoldable pub list_first_stock_items :
    ℤ
    → Option GrpcError
    → List StockItem
    → RecvEnd
    → Outcome ClientError (Unit {0}) × List StockItem
unfolding receive_first
list_first_stock_items limit started items end =
    if not_positive limit
    then (err limit_must_be_positive, [])
    else then_do (check_call list_failed started) (receive_first (rounds limit) items end)

-- `for _, item := range items { if err := stream.Send(item); … }`, with the result of each `Send`.
unfoldable pub send_all : List StockItem → List (Option GrpcError) → Outcome ClientError (Unit {0})
send_all [] results = ok tt
send_all (item ∷ items) [] = stuck
send_all (item ∷ items) (none ∷ results) = send_all items results
send_all (item ∷ items) (some e ∷ results) = err (send_failed item e)

-- The outcome of `CloseAndRecv`, which the client logs.
abbrev pub wrap_report :
    Outcome GrpcError StockReportResponse → Outcome ClientError StockReportResponse
wrap_report (ok r) = ok r
wrap_report (err e) = err (report_failed e)
wrap_report panic = panic
wrap_report stuck = stuck

-- `reportStock`, for the items that it reports.
unfoldable pub report_items :
    List StockItem
    → Option GrpcError
    → List (Option GrpcError)
    → Outcome GrpcError StockReportResponse
    → Outcome ClientError StockReportResponse
unfolding send_all
report_items items started results report =
    check_call start_failed started >> send_all items results >> wrap_report report

unfoldable pub report_stock :
    Option GrpcError
    → List (Option GrpcError)
    → Outcome GrpcError StockReportResponse
    → Outcome ClientError StockReportResponse
unfolding report_items
report_stock = report_items stock_list

-- `syncStock`, for the items that it sends; the stream gives back `echoed`.
unfoldable pub sync_items :
    List StockItem
    → Option GrpcError
    → List (Option GrpcError)
    → Option GrpcError
    → List StockItem
    → RecvEnd
    → Outcome ClientError (Unit {0}) × List StockItem
unfolding send_all receive_all
sync_items items started results closed echoed end =
    then_do
      (check_call start_failed started >> send_all items results >> check_call close_failed closed)
      (receive_all echoed end)

unfoldable pub sync_stock :
    Option GrpcError
    → List (Option GrpcError)
    → Option GrpcError
    → List StockItem
    → RecvEnd
    → Outcome ClientError (Unit {0}) × List StockItem
unfolding sync_items
sync_stock = sync_items stock_list
