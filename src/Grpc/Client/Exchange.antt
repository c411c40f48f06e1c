-- ===== src/Grpc/Client/Exchange.antt =====
-- The client of grpc/fundamentals against its server.
use go_network_lab.Base.{
  ℕ, zero, suc, ◌<◌, ◌^◌, ◌≡◌, ◌≢◌, refl, ap, ◌∙◌, Bool, true, false, leb, ◌==◌, if◌then◌else◌,
  Option, none, some, List, [], ◌∷◌, ◌++◌, Outcome, ok, err, panic, stuck, ◌>>◌, length, take,
  arith, sym, append-nil, append_assoc,
}
use go_network_lab.Base.Ints.{pos}
use go_network_lab.Grpc.Service.{
  StockItem, GrpcError, RecvEnd, recv_eof, recv_failed, Run, Wait, released, sent_items,
  after_event, Event, received, sent, offered, Signal,
}
use go_network_lab.Grpc.Server
use go_network_lab.Grpc.Server.{
  InventoryServer, StockReportResponse, offer, wait_if, send_item, sync_stock, rest_of,
}
use go_network_lab.Grpc.Server.Answers.{count_available, report_stock-counts}
use go_network_lab.Grpc.Server.Streams.{Sends, sync_stock-Sends}
use go_network_lab.Grpc.Client.{
  ClientError, receive_failed, receive_all, receive_first, list_first_stock_items, logged, then_do,
  send_all, sync_items, report_items, check_call, start_failed, close_failed,
}

-- How a loop that wants `n` items ends.
abbrev pub first_result : ℕ → List StockItem → RecvEnd → Outcome ClientError (Unit {0})
first_result n items recv_eof = ok tt
first_result n items (recv_failed e) =
    if leb n (length items) then ok tt else err (receive_failed e)

receive_first_lem :
    (n : ℕ) (items : List StockItem) (end : RecvEnd)
    → receive_first n items end ≡ (first_result n items end, take n items)
unfolding receive_first
receive_first_lem zero items recv_eof = refl
receive_first_lem zero items (recv_failed e) = ground arith
receive_first_lem (suc n) [] recv_eof = refl
receive_first_lem (suc n) [] (recv_failed e) = ground arith
receive_first_lem (suc n) (item ∷ items) recv_eof =
    ap (logged item) (receive_first_lem n items recv_eof)
receive_first_lem (suc n) (item ∷ items) (recv_failed e) =
    ap (logged item) (receive_first_lem n items (recv_failed e))
    ∙ ap (λ b. (if b then ok tt else err (receive_failed e), item ∷ take n items)) same
  where
    same : leb n (length items) ≡ leb (suc n) (suc (length items))
    same = ground arith

-- With a positive limit, on a stream that could be opened, listFirstStockItems logs that many items
-- from the front of the stream, or all if there are fewer; it fails only where the stream fails before
-- the limit is reached.
list_first_stock_items-take :
    (n : ℕ) (items : List StockItem) (end : RecvEnd)
    → 0 < n
    → list_first_stock_items (pos n) none items end ≡ (first_result n items end, take n items)
unfolding list_first_stock_items
list_first_stock_items-take n items end h =
    let z : (n == 0) ≡ false = ground arith in rw z (receive_first_lem n items end)

-- Each of the calls that are left succeeds.
abbrev pub all_sent : ℕ → List (Option GrpcError)
all_sent zero = []
all_sent (suc n) = none ∷ all_sent n

abbrev pub all_released : ℕ → List Wait
all_released zero = []
all_released (suc n) = released ∷ all_released n

receive_all_eof : (items : List StockItem) → receive_all items recv_eof ≡ (ok tt, items)
unfolding receive_all
receive_all_eof [] = refl
receive_all_eof (item ∷ items) = ap (logged item) (receive_all_eof items)

send_all-all_sent : (items : List StockItem) → send_all items (all_sent (length items)) ≡ ok tt
unfolding send_all
send_all-all_sent [] = refl
send_all-all_sent (item ∷ items) = send_all-all_sent items

-- The handler returns without an error, and has sent the items.
abbrev Completes : List StockItem → Run (Unit {0}) → Type 0
Completes items run = (es : List Event) × (run ≡ (ok tt, es)) × (sent_items es ≡ items)

Completes-offer :
    (items : List StockItem) (b : Bool) (s : Signal) (run : Run (Unit {0}))
    → Completes items run
    → Completes items (offer b s run)
unfolding sent_items
Completes-offer items true s run (es, e, same) =
    (offered s ∷ es, ap (after_event (offered s)) e, same)
Completes-offer items false s run h = h

Completes-wait_if :
    (items : List StockItem) (b : Bool) (waits : List Wait) (run : Run (Unit {0}))
    → Completes items run
    → Completes items (wait_if b (released ∷ waits) run)
Completes-wait_if items true waits run h = h
Completes-wait_if items false waits run h = h

-- The server's loop sends everything back where nothing fails.
sync_stock-Completes :
    (s : InventoryServer) (items : List StockItem)
    → Completes items
        (sync_stock s items recv_eof (all_sent (length items)) (all_released (length items)))
unfolding sync_stock sent_items
sync_stock-Completes s [] = ([], refl, refl)
sync_stock-Completes s (item ∷ items) =
    let (es, e, same) = sync_stock-Completes s items in
    Completes-offer (item ∷ items) s.signals_sync_item _ _ (
      Completes-wait_if (item ∷ items) s.waits_after_sync_item _ _ (
        received item ∷ sent item ∷ es,
        ap (λ run. after_event (received item) (after_event (sent item) run)) e,
        ap (◌∷◌ item) same,
      ))

-- Where every call succeeds, on both sides, syncStock gets back from SyncStock the items that it
-- sends, in order, and returns without an error.
sync_items-completes :
    (s : InventoryServer) (items : List StockItem)
    → (es : List Event) × (sync_stock s items recv_eof
          (all_sent (length items))
          (all_released (length items))
        ≡ (ok tt, es))
      × (sync_items items none (all_sent (length items)) none (sent_items es) recv_eof
          ≡ (ok tt, items))
unfolding sync_items
sync_items-completes s items =
    let (es, e, same) = sync_stock-Completes s items in
    (es, e, rw (send_all-all_sent items, same) (receive_all_eof items))

-- What arrives of the items that one side sends, and how `Recv` ends there: they come in order, and
-- the end only behind all of them; a failure may cut them off anywhere.
abbrev pub Delivers : List StockItem → List StockItem → RecvEnd → Type 0
Delivers items arrived recv_eof = arrived ≡ items
Delivers items arrived (recv_failed e) = (missing : List StockItem) × (items ≡ arrived ++ missing)

-- The same for what the server sends, where the end comes only if its handler returns without an error.
abbrev pub DeliversBack : Run (Unit {0}) → List StockItem → RecvEnd → Type 0
DeliversBack run arrived recv_eof = (run.0 ≡ ok tt) × (arrived ≡ sent_items (run.1))
DeliversBack run arrived (recv_failed e) =
    (missing : List StockItem) × (sent_items (run.1) ≡ arrived ++ missing)

-- What syncStock makes of an exchange: without an error it got everything back, otherwise some first
-- items; it never panics.
abbrev pub Echoed : List StockItem → Outcome ClientError (Unit {0}) × List StockItem → Type 0
Echoed items (ok tt, got) = got ≡ items
Echoed items (err e, got) = (left : List StockItem) × (items ≡ got ++ left)
Echoed items (panic, got) = ⊥
Echoed items (stuck, got) = got ≡ []

receive_all_failed :
    (items : List StockItem) (e : GrpcError)
    → receive_all items (recv_failed e) ≡ (err (receive_failed e), items)
unfolding receive_all
receive_all_failed [] e = refl
receive_all_failed (item ∷ items) e = ap (logged item) (receive_all_failed items e)

Delivers-prefix :
    (items arrived : List StockItem) (end : RecvEnd)
    → Delivers items arrived end
    → (missing : List StockItem) × (items ≡ arrived ++ missing)
Delivers-prefix items arrived recv_eof h = ([], sym h ∙ sym (append-nil arrived))
Delivers-prefix items arrived (recv_failed e) h = h

Sends-prefix :
    (finish : Type 0) (cause : GrpcError → Type 0) (items : List StockItem) (run : Run (Unit {0}))
    → Sends finish cause items run
    → (left : List StockItem) × (items ≡ sent_items (run.1) ++ left)
Sends-prefix finish cause items (ok tt, es) (h, f) = ([], sym h ∙ sym (append-nil (sent_items es)))
Sends-prefix finish cause items (err e, es) (left, h, c) = (left, h)
Sends-prefix finish cause items (panic, es) h = absurd h
Sends-prefix finish cause items (stuck, es) h = h

prefix_trans :
    (xs ys zs us ws : List StockItem) → xs ≡ ys ++ us → ys ≡ zs ++ ws → xs ≡ zs ++ (ws ++ us)
prefix_trans xs ys zs us ws h k = h ∙ ap (λ x. x ++ us) k ∙ append_assoc zs ws us

-- What the client logs of an exchange in which the stream was opened.
receive_all-Echoed :
    (cause : GrpcError → Type 0) (items arrived echoed : List StockItem) (server_end end : RecvEnd)
    (run : Run (Unit {0}))
    → Delivers items arrived server_end
    → Sends (server_end ≡ recv_eof) cause arrived run
    → DeliversBack run echoed end
    → Echoed items (receive_all echoed end)
receive_all-Echoed cause items arrived echoed recv_eof recv_eof (ok tt, es) d (h, f) (_, back) =
    rw receive_all_eof (back ∙ h ∙ d)
receive_all-Echoed cause items arrived echoed (recv_failed e) recv_eof (ok tt, es) d (h, f) b = cc
receive_all-Echoed cause items arrived echoed server_end recv_eof (err x, es) d h (bad, back) = cc
receive_all-Echoed cause items arrived echoed server_end recv_eof (panic, es) d h (bad, back) = cc
receive_all-Echoed cause items arrived echoed server_end recv_eof (stuck, es) d h (bad, back) = cc
receive_all-Echoed cause items arrived echoed server_end (recv_failed x) run d h (lost, back) =
    let (missing, first) = Delivers-prefix items arrived server_end d in
    let (left, second) = Sends-prefix _ cause arrived run h in
    let kept = prefix_trans items arrived (sent_items (run.1)) missing left first second in
    rw receive_all_failed (
      lost ++ (left ++ missing),
      prefix_trans items (sent_items (run.1)) echoed (left ++ missing) lost kept back,
    )

-- No call of the client panics.
send_all-panic :
    (items : List StockItem) (results : List (Option GrpcError)) → send_all items results ≢ panic
unfolding send_all
send_all-panic [] results e = cc
send_all-panic (item ∷ items) [] e = cc
send_all-panic (item ∷ items) (none ∷ results) e = send_all-panic items results e
send_all-panic (item ∷ items) (some x ∷ results) e = cc

check_second-panic :
    (r : Outcome ClientError (Unit {0})) (closed : Option GrpcError)
    → r ≢ panic
    → (r >> check_call close_failed closed) ≢ panic
check_second-panic (ok tt) none n e = cc
check_second-panic (ok tt) (some x) n e = cc
check_second-panic (err x) closed n e = cc
check_second-panic panic closed n e = n refl
check_second-panic stuck closed n e = cc

calls-panic :
    (started : Option GrpcError) (items : List StockItem) (results : List (Option GrpcError))
    (closed : Option GrpcError)
    → (check_call start_failed started >> send_all items results >> check_call close_failed closed)
      ≢ panic
calls-panic none items results closed =
    check_second-panic (send_all items results) closed (send_all-panic items results)
calls-panic (some x) items results closed = λ e. cc

then_do-Echoed :
    (items : List StockItem) (r : Outcome ClientError (Unit {0}))
    (next : Outcome ClientError (Unit {0}) × List StockItem)
    → (r ≢ panic)
    → Echoed items next
    → Echoed items (then_do r next)
then_do-Echoed items (ok tt) next n h = h
then_do-Echoed items (err e) next n h = (items, refl)
then_do-Echoed items panic next n h = absurd (n refl)
then_do-Echoed items stuck next n h = refl

-- Whatever fails on the way, a call of the client, of the server, or the delivery in either direction,
-- syncStock logs only items that it sent, in order and from the first on, and where it returns without
-- an error it has logged them all. Each side receives what the other sends in order, and the end of the
-- stream only behind all of it, the client only if the server's handler returns without an error.
pub sync_items-Echoed :
    (s : InventoryServer) (items arrived echoed : List StockItem) (server_end end : RecvEnd)
    (sends : List (Option GrpcError)) (waits : List Wait) (started : Option GrpcError)
    (results : List (Option GrpcError)) (closed : Option GrpcError)
    → Delivers items arrived server_end
    → DeliversBack (sync_stock s arrived server_end sends waits) echoed end
    → Echoed items (sync_items items started results closed echoed end)
unfolding sync_items
sync_items-Echoed s items arrived echoed server_end end sends waits started results closed d back =
    then_do-Echoed items _ _ (calls-panic started items results closed) (
      receive_all-Echoed _ items arrived echoed server_end end
        (sync_stock s arrived server_end sends waits) d
        (sync_stock-Sends s arrived server_end sends waits) back)

-- Where every call succeeds, and fewer than 2 ^ 31 items are reported, reportStock gets from
-- ReportStock their number and the number of available ones.
pub report_items-counts :
    (items : List StockItem)
    → length items < 2 ^ 31
    → report_items items none (all_sent (length items)) (Server.report_stock items recv_eof none)
      ≡ ok record {
        received_count = pos (length items);
        available_count = pos (count_available items);
      }
unfolding report_items
report_items-counts items h = rw (send_all-all_sent items, report_stock-counts items h) refl
