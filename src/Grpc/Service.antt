-- ===== src/Grpc/Service.antt =====
-- What grpc/fundamentals shares: the messages of the service, the errors of package status, the
-- context of a call, and what a call leaves behind.
use go_network_lab.Base.{ℕ, Bool, Option, List, [], ◌∷◌, Bytes, Outcome}

pub record StockItem : Type 0 where
  pub product_id : Bytes
  pub available : Bool

-- What `ctx.Err()` returns when the context is done.
pub data ContextError : Type 0 where
  context_canceled context_deadline_exceeded : ContextError

-- The codes that the handlers and `status.FromContextError` use.
pub data Code : Type 0 where
  canceled invalid_argument deadline_exceeded not_found unauthenticated : Code

-- `status` is an error with a code, without its text; `transport n` another error of a stream.
pub data GrpcError : Type 0 where
  status : Code → GrpcError
  transport : ℕ → GrpcError

-- `status.FromContextError(err).Err()`
abbrev pub from_context_error : ContextError → GrpcError
from_context_error context_canceled = status canceled
from_context_error context_deadline_exceeded = status deadline_exceeded

-- The channels of the server on which handlers offer a signal that nobody has to take.
pub data Signal : Type 0 where
  slow_operation_started first_stock_item_sent sync_stock_item_received : Signal

-- What a call leaves behind, in order: the lines of the log, the signals offered, the items sent.
pub data Event : Type 0 where
  rpc_started : Bytes → Bytes → Event
  rpc_completed : Bytes → Bytes → Option GrpcError → Event
  stream_started : Bytes → Event
  stream_completed : Bytes → Option GrpcError → Event
  entering exiting : Bytes → Event
  offered : Signal → Event
  slow_completed : Event
  observed_cancellation : ContextError → Event
  received sent : StockItem → Event

abbrev pub Run : Type 0 → Type 0
Run A = Outcome GrpcError A × List Event

-- An event in front of what follows.
abbrev pub after_event : {A : Type 0} → Event → Run A → Run A
after_event e (r, es) = (r, e ∷ es)

-- The metadata of a call, as `md.Get` answers; `none` where `FromIncomingContext` finds no metadata.
pub record CallContext : Type 0 where
  pub incoming : Option (Bytes → List Bytes)

-- A `select` between a channel or a timer and `ctx.Done()`.
pub data Wait : Type 0 where
  released : Wait
  ended : ContextError → Wait

-- How `Recv` ends after the items: by `io.EOF` or by another error.
pub data RecvEnd : Type 0 where
  recv_eof : RecvEnd
  recv_failed : GrpcError → RecvEnd

-- The items among the events that were sent.
abbrev sent_onto : Event → List StockItem → List StockItem
sent_onto (sent item) items = item ∷ items
sent_onto _ items = items

unfoldable pub sent_items : List Event → List StockItem
sent_items [] = []
sent_items (e ∷ es) = sent_onto e (sent_items es)
