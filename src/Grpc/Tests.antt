-- ===== src/Grpc/Tests.antt =====
-- Tests of the inventory service.
use go_network_lab.Base.{
  ◌≡◌, refl, Bool, true, false, if◌then◌else◌, none, some, List, [], ◌∷◌, Bytes, codes, bytes_eq,
  ok, err, arith,
}
use go_network_lab.Base.Ints.{pos}
use go_network_lab.Base.Spaces.{trim_space}
use go_network_lab.Grpc.Service.{
  StockItem, CallContext, context_canceled, canceled, invalid_argument, not_found, status, released,
  ended, recv_eof, recv_failed, sent_items, transport, stream_started, stream_completed,
}
use go_network_lab.Grpc.Server.{
  InventoryServer, check_stock, stock_item, stock_list, sync_stock, list_stock, report_stock,
}
use go_network_lab.Grpc.Server.Answers.{Explained, check_stock-Explained, count_available}
use go_network_lab.Grpc.Server.Streams.{Sends, SyncCause, sync_stock-Sends}
use go_network_lab.Grpc.Interceptors.{
  UnaryHandler, UnaryInterceptor, StreamHandler, StreamInterceptor, unary_interceptors,
  stream_interceptors,
}
use go_network_lab.Grpc.Interceptors.Chain.{
  Guarded, enclosed, unary_interceptors-authenticate, stream_interceptors-enclosed,
}
use go_network_lab.Grpc.Client.{sync_items, report_items}
use go_network_lab.Grpc.Client.Exchange.{sync_items-Echoed, Echoed, report_items-counts}

answers :
    (check_stock released none (codes " keyboard\n") ≡ (ok true, []))
    × (check_stock released none (codes "monitor") ≡ (ok false, []))
    × (check_stock released none (codes "mouse") ≡ (err (status not_found), []))
    × (check_stock released none (codes " \t") ≡ (err (status invalid_argument), []))
    × (check_stock released (some context_canceled) (codes "keyboard")
        ≡ (err (status canceled), []))
unfolding check_stock bytes_eq
answers = (refl, refl, refl, refl, refl)

check_stock-Explained_example :
    Explained
      (ended context_canceled)
      none
      (trim_space (codes "slow-item"))
      ((check_stock (ended context_canceled) none (codes "slow-item")).0)
check_stock-Explained_example =
    check_stock-Explained (ended context_canceled) none (codes "slow-item")

-- The server of main, and one that waits behind every item.
abbrev plain : InventoryServer
plain = record {
  signals_first_item = false;
  waits_after_first_item = false;
  signals_sync_item = false;
  waits_after_sync_item = false;
}

abbrev gated : InventoryServer
gated = record {
  signals_first_item = true;
  waits_after_first_item = true;
  signals_sync_item = true;
  waits_after_sync_item = true;
}

-- A client that gives up is told so behind the first item.
cancelled :
    (sent_items (
        (sync_stock gated stock_list recv_eof
          (none ∷ none ∷ [])
          (released ∷ ended context_canceled ∷ [])).1)
      ≡ stock_item (codes "keyboard") true ∷ [])
    × ((list_stock gated [] (none ∷ []) (ended context_canceled ∷ [])).0 ≡ err (status canceled))
unfolding sync_stock list_stock sent_items bytes_eq
cancelled = (refl, refl)

sync_stock-Sends_example :
    Sends
      (recv_failed (transport 1) ≡ recv_eof)
      (SyncCause
        (recv_failed (transport 1))
        (none ∷ none ∷ none ∷ [])
        (released ∷ released ∷ released ∷ []))
      stock_list
      (sync_stock gated stock_list
        (recv_failed (transport 1))
        (none ∷ none ∷ none ∷ [])
        (released ∷ released ∷ released ∷ []))
sync_stock-Sends_example =
    sync_stock-Sends gated stock_list (recv_failed (transport 1)) (none ∷ none ∷ none ∷ [])
      (released ∷ released ∷ released ∷ [])

report_items-counts_example :
    report_items stock_list none (none ∷ none ∷ none ∷ []) (report_stock stock_list recv_eof none)
    ≡ ok record { received_count = pos 3; available_count = pos 2 }
unfolding count_available
report_items-counts_example = report_items-counts stock_list (omega arith)

-- The server receives two of the three items before its `Recv` fails, its second `Send` fails, and the
-- client receives the one item that was sent back.
abbrev keyboard : StockItem
keyboard = stock_item (codes "keyboard") true

abbrev monitor : StockItem
monitor = stock_item (codes "monitor") false

sync_items-Echoed_example : Echoed stock_list (
    sync_items stock_list none
      (none ∷ none ∷ none ∷ [])
      none
      (keyboard ∷ [])
      (recv_failed (transport 3)))
unfolding sync_stock sent_items
sync_items-Echoed_example =
    sync_items-Echoed gated stock_list (keyboard ∷ monitor ∷ []) (keyboard ∷ [])
      (recv_failed (transport 2)) (recv_failed (transport 3)) (none ∷ some (transport 3) ∷ [])
      (released ∷ released ∷ []) none (none ∷ none ∷ none ∷ []) none
      (stock_item (codes "mouse") true ∷ [], refl) ([], refl)

-- The chain of the package, as it is documented.
chain_unary :
    {Req Resp : Type 0}
    → List (UnaryInterceptor Req Resp)
    → UnaryHandler Req Resp
    → Bytes
    → UnaryHandler Req Resp
chain_unary [] h m ctx req = h ctx req
chain_unary (i ∷ is) h m ctx req = i ctx req m (chain_unary is h m)

chain_stream : List StreamInterceptor → StreamHandler → Bytes → StreamHandler
chain_stream [] h m ctx = h ctx
chain_stream (i ∷ is) h m ctx = i ctx m (chain_stream is h m)

-- A caller with the token.
abbrev caller : CallContext
caller = record {
  incoming = some λ key.
      if bytes_eq key (codes "authorization") then codes "Bearer lab-secret-token" ∷ [] else [];
}

abbrev handler : UnaryHandler Bytes Bool
handler ctx req = check_stock released none req

unary_interceptors-authenticate_example :
    Guarded handler
      (codes "/CheckStock")
      caller
      (codes "keyboard")
      (chain_unary unary_interceptors handler (codes "/CheckStock") caller (codes "keyboard"))
unfolding chain_unary
unary_interceptors-authenticate_example =
    unary_interceptors-authenticate chain_unary (λ h m ctx req. refl) (λ i is h m ctx req. refl)
      handler (codes "/CheckStock") caller (codes "keyboard")

stream_interceptors-enclosed_example :
    chain_stream stream_interceptors
      (λ ctx. list_stock plain [] (none ∷ []) [])
      (codes "/ListStock")
      (record { incoming = none })
    ≡ enclosed
        (stream_started (codes "/ListStock"))
        (stream_completed (codes "/ListStock"))
        (codes "/ListStock")
        (list_stock plain [] (none ∷ []) [])
unfolding chain_stream
stream_interceptors-enclosed_example =
    stream_interceptors-enclosed chain_stream (λ h m ctx. refl) (λ i is h m ctx. refl)
      (λ ctx. list_stock plain [] (none ∷ []) []) (codes "/ListStock") (record { incoming = none })
