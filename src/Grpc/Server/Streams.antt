-- ===== src/Grpc/Server/Streams.antt =====
-- What ListStock and SyncStock of grpc/fundamentals/server/main.go send.
use go_network_lab.Base.{
  ◌≡◌, refl, ap, ◌⊎◌, inl, inr, Bool, true, false, Bool-cases, Option, none, some, List, [], ◌∷◌,
  ◌++◌, bytes_eq, codes, ok, err, panic, stuck,
}
use mathlib.Core.List.{Mem, mem-cons_self, mem-cons_of_mem}
use go_network_lab.Grpc.Service.{
  StockItem, ContextError, GrpcError, from_context_error, Run, Wait, released, ended, RecvEnd,
  recv_eof, recv_failed, sent_items, received, sent, Signal, after_event,
}
use go_network_lab.Grpc.Server.{
  InventoryServer, list_loop, list_stock, stock_list, sync_stock, recv_result, send_item, wait_if,
  offer, rest_of, unless_done, first_of, after_keyboard,
}

-- Where an error of a handler comes from, other than from `Recv`: `Send`, or the context.
abbrev pub Caused :
    List (Option ContextError) → List (Option GrpcError) → List Wait → GrpcError → Type 0
Caused ctx_err sends waits e =
    Mem (some e) sends
    ⊎ ((c : ContextError) × (e ≡ from_context_error c)
        × (Mem (ended c) waits ⊎ Mem (some c) ctx_err))

-- What a handler that sends the items in order may have done: where it returns without an error it
-- has sent them all, and otherwise some first ones; an error is one that a call gave it.
abbrev pub Sends : Type 0 → (GrpcError → Type 0) → List StockItem → Run (Unit {0}) → Type 0
Sends finish cause items (ok tt, es) = sent_items es ≡ items × finish
Sends finish cause items (err e, es) =
    (left : List StockItem) × (items ≡ sent_items es ++ left) × cause e
Sends finish cause items (panic, es) = ⊥
Sends finish cause items (stuck, es) = (left : List StockItem) × (items ≡ sent_items es ++ left)

module _ (finish : Type 0) (cause : GrpcError → Type 0) where
  -- An event that sends nothing changes nothing.
  Sends-offer :
      (items : List StockItem) (b : Bool) (s : Signal) (run : Run (Unit {0}))
      → Sends finish cause items run
      → Sends finish cause items (offer b s run)
  unfolding sent_items
  Sends-offer items true s (ok tt, es) h = h
  Sends-offer items true s (err e, es) h = h
  Sends-offer items true s (panic, es) h = h
  Sends-offer items true s (stuck, es) h = h
  Sends-offer items false s run h = h

  Sends-received :
      (items : List StockItem) (item : StockItem) (run : Run (Unit {0}))
      → Sends finish cause items run
      → Sends finish cause items (after_event (received item) run)
  unfolding sent_items
  Sends-received items item (ok tt, es) h = h
  Sends-received items item (err e, es) h = h
  Sends-received items item (panic, es) h = h
  Sends-received items item (stuck, es) h = h

  Sends-sent :
      (items : List StockItem) (item : StockItem) (run : Run (Unit {0}))
      → Sends finish cause items run
      → Sends finish cause (item ∷ items) (after_event (sent item) run)
  unfolding sent_items
  Sends-sent items item (ok tt, es) (h, f) = (ap (◌∷◌ item) h, f)
  Sends-sent items item (err e, es) (left, h, c) = (left, ap (◌∷◌ item) h, c)
  Sends-sent items item (panic, es) h = h
  Sends-sent items item (stuck, es) (left, h) = (left, ap (◌∷◌ item) h)

  Sends-send_item :
      (items : List StockItem) (item : StockItem) (sends : List (Option GrpcError))
      (run : Run (Unit {0}))
      → ((e : GrpcError) → Mem (some e) sends → cause e)
      → Sends finish cause items run
      → Sends finish cause (item ∷ items) (send_item item sends run)
  unfolding sent_items
  Sends-send_item items item [] run c h = (item ∷ items, refl)
  Sends-send_item items item (none ∷ sends) run c h = Sends-sent items item run h
  Sends-send_item items item (some e ∷ sends) run c h = (item ∷ items, refl, c e mem-cons_self)

  Sends-wait_if :
      (items : List StockItem) (b : Bool) (waits : List Wait) (run : Run (Unit {0}))
      → ((c : ContextError) → Mem (ended c) waits → cause (from_context_error c))
      → Sends finish cause items run
      → Sends finish cause items (wait_if b waits run)
  unfolding sent_items
  Sends-wait_if items false waits run c h = h
  Sends-wait_if items true [] run c h = (items, refl)
  Sends-wait_if items true (released ∷ waits) run c h = h
  Sends-wait_if items true (ended e ∷ waits) run c h = (items, refl, c e mem-cons_self)

  Sends-unless_done :
      (items : List StockItem) (ctx_err : List (Option ContextError)) (run : Run (Unit {0}))
      → ((c : ContextError) → Mem (some c) ctx_err → cause (from_context_error c))
      → Sends finish cause items run
      → Sends finish cause items (unless_done (first_of ctx_err) run)
  unfolding sent_items
  Sends-unless_done items [] run c h = h
  Sends-unless_done items (none ∷ ds) run c h = h
  Sends-unless_done items (some e ∷ ds) run c h = (items, refl, c e mem-cons_self)

Sends-after_keyboard :
    (finish : Type 0) (cause : GrpcError → Type 0) (s : InventoryServer) (item : StockItem)
    (items : List StockItem) (waits : List Wait) (run : Run (Unit {0}))
    → ((c : ContextError) → Mem (ended c) waits → cause (from_context_error c))
    → Sends finish cause items run
    → Sends finish cause items (after_keyboard s item waits run)
Sends-after_keyboard finish cause s item items waits run cw h =
    elim (Bool-cases (bytes_eq item.product_id (codes "keyboard"))) [
      | inl e ↦ rw e (
          Sends-offer finish cause _ s.signals_first_item _ _
            (Sends-wait_if finish cause _ s.waits_after_first_item waits _ cw h))
      | inr e ↦ rw e h
    ]

Mem-rest_of : {A : Type 0} (x : A) (xs : List A) → Mem x (rest_of xs) → Mem x xs
Mem-rest_of x [] h = h
Mem-rest_of x (y ∷ ys) h = mem-cons_of_mem y h

sync_loop-Sends :
    (finish : Type 0) (cause : GrpcError → Type 0) (s : InventoryServer) (items : List StockItem)
    (end : RecvEnd) (sends : List (Option GrpcError)) (waits : List Wait)
    → ((e : GrpcError) → Mem (some e) sends → cause e)
    → ((c : ContextError) → Mem (ended c) waits → cause (from_context_error c))
    → Sends finish cause [] (recv_result end, [])
    → Sends finish cause items (sync_stock s items end sends waits)
unfolding sync_stock
sync_loop-Sends finish cause s [] end sends waits cs cw h = h
sync_loop-Sends finish cause s (item ∷ items) end sends waits cs cw h =
    let rest =
      sync_loop-Sends finish cause s items end (rest_of sends) (rest_of waits)
        (λ e m. cs e (Mem-rest_of _ sends m)) (λ c m. cw c (Mem-rest_of _ waits m)) h in
    Sends-offer finish cause _ s.signals_sync_item _ _ (
      Sends-wait_if finish cause _ s.waits_after_sync_item waits _ cw (
        Sends-received finish cause _ item _
          (Sends-send_item finish cause items item sends _ cs rest)))

recv_result-Sends :
    (cause : GrpcError → Type 0) (end : RecvEnd)
    → ((e : GrpcError) → end ≡ recv_failed e → cause e)
    → Sends (end ≡ recv_eof) cause [] (recv_result end, [])
unfolding sent_items
recv_result-Sends cause recv_eof c = (refl, refl)
recv_result-Sends cause (recv_failed e) c = ([], refl, c e refl)

-- Why SyncStock may fail.
abbrev pub SyncCause : RecvEnd → List (Option GrpcError) → List Wait → GrpcError → Type 0
SyncCause end sends waits e = (end ≡ recv_failed e) ⊎ Caused [] sends waits e

-- SyncStock sends back what it receives: where it returns without an error the client has ended the
-- stream and every item received was sent, in order; where it fails, or blocks, some first ones were
-- sent, and its error is that of Recv, of a Send, or of the context at one of the waits.
pub sync_stock-Sends :
    (s : InventoryServer) (items : List StockItem) (end : RecvEnd) (sends : List (Option GrpcError))
    (waits : List Wait)
    → Sends
        (end ≡ recv_eof)
        (λ e. (end ≡ recv_failed e) ⊎ Caused [] sends waits e)
        items
        (sync_stock s items end sends waits)
sync_stock-Sends s items end sends waits =
    sync_loop-Sends _ _ s items end sends waits (λ e m. inr (inl m))
      (λ c m. inr (inr (c, refl, inl m))) (recv_result-Sends _ end λ e h. inl h)

list_loop-Sends :
    (cause : GrpcError → Type 0) (s : InventoryServer) (items : List StockItem)
    (ctx_err : List (Option ContextError)) (sends : List (Option GrpcError)) (waits : List Wait)
    → ((e : GrpcError) → Mem (some e) sends → cause e)
    → ((c : ContextError) → Mem (ended c) waits → cause (from_context_error c))
    → ((c : ContextError) → Mem (some c) ctx_err → cause (from_context_error c))
    → Sends Unit cause items (list_loop s items ctx_err sends waits)
unfolding list_loop sent_items
list_loop-Sends cause s [] ctx_err sends waits cs cw cd = (refl, tt)
list_loop-Sends cause s (item ∷ items) ctx_err sends waits cs cw cd =
    let rest =
      list_loop-Sends cause s items (rest_of ctx_err) (rest_of sends) waits
        (λ e m. cs e (Mem-rest_of _ sends m)) cw (λ c m. cd c (Mem-rest_of _ ctx_err m)) in
    Sends-unless_done Unit cause _ ctx_err _ cd (
      Sends-send_item Unit cause items item sends _ cs
        (Sends-after_keyboard Unit cause s item items waits _ cw rest))

-- ListStock sends the three items of the stock in order: all of them where it returns without an
-- error, and otherwise some first ones; an error is that of a Send, or of the context before a Send or
-- at the wait behind the first.
list_stock-Sends :
    (s : InventoryServer) (ctx_err : List (Option ContextError)) (sends : List (Option GrpcError))
    (waits : List Wait)
    → Sends Unit (Caused ctx_err sends waits) stock_list (list_stock s ctx_err sends waits)
unfolding list_stock
list_stock-Sends s ctx_err sends waits =
    list_loop-Sends _ s stock_list ctx_err sends waits (λ e m. inl m) (λ c m. inr (c, refl, inl m))
      (λ c m. inr (c, refl, inr m))
