-- ===== src/Dns/Tcp.antt =====
-- internal/dns/tcp.go, and `lookupIOError` of lookup.go. The network, the context and the clock are
-- scripts: what each call on them returns, in the order of the calls.
pub mod Exchange
use go_network_lab.Base.{
  ℕ, ◌%◌, Bool, ◌&&◌, List, [], ◌∷◌, ◌++◌, Option, none, some, Bytes, length, ltb, if◌then◌else◌,
  u16_mod, put_uint16, uint16, Outcome, ok, err, ◌>>=◌, ◌>>◌, fail_if, wrap_err,
}
use go_network_lab.Base.Io.{
  IoError, deadline_exceeded, is_timeout, Stream, read_full, WriteResult, write_full,
}

-- The context at one moment: `ctx.Err()`, and whether its deadline has passed on the clock.
pub record ContextView : Type 0 where
  pub error : Option IoError
  pub deadline_passed : Bool

unfoldable pub lookup_io_error : ContextView → IoError → IoError
lookup_io_error v e = elim v.error [
  | some c ↦ c
  | none ↦ if v.deadline_passed && is_timeout e then deadline_exceeded else e
]

pub data TcpError : Type 0 where
  query_too_long invalid_length : ℕ → TcpError
  tcp_context tcp_dial tcp_set_deadline tcp_write tcp_read_length tcp_read_response :
      IoError → TcpError

-- `if err := ctx.Err(); err != nil { return …, err }`, and a call that returns an error or nil
abbrev pub check : {E : Type 0} → (IoError → E) → Option IoError → Outcome E (Unit {0})
check w none = ok tt
check w (some e) = err (w e)

-- An established connection: what the context, `SetDeadline`, `Write` and `Read` will return.
-- `deadline` is `none` where the context has none, and `at_failure` the context when a call fails.
pub record TcpConn : Type 0 where
  pub context_before : Option IoError
  pub deadline : Option (Option IoError)
  pub writes : List WriteResult
  pub incoming : Stream
  pub context_after : Option IoError
  pub at_failure : ContextView

abbrev pub flatten_error : Option (Option IoError) → Option IoError
flatten_error none = none
flatten_error (some e) = e

-- The frame that is written.
abbrev pub tcp_frame : Bytes → Bytes
tcp_frame query = put_uint16 (length query % u16_mod) ++ query

-- The end of `exchangeTCPConn`, once the length of the response is read.
unfoldable pub read_payload : TcpConn → ℕ → Stream → Outcome TcpError Bytes
read_payload c size s = do
  fail_if (ltb size 12) (invalid_length size)
  response ← wrap_err (λ e. tcp_read_response (lookup_io_error c.at_failure e)) (read_full size s).0
  check tcp_context c.context_after
  ok response

-- The half of `exchangeTCPConn` that reads the response.
unfoldable pub read_response : TcpConn → Outcome TcpError Bytes
unfolding read_payload
read_response c = do
  let (prefix, rest) = read_full 2 c.incoming
  two ← wrap_err (λ e. tcp_read_length (lookup_io_error c.at_failure e)) prefix
  size ← uint16 two
  read_payload c size rest

unfoldable pub exchange_tcp_conn : TcpConn → Bytes → Outcome TcpError Bytes
exchange_tcp_conn c query = do
  let fail = λ (w : IoError → TcpError). λ (e : IoError). w (lookup_io_error c.at_failure e)
  fail_if (ltb 65535 (length query)) (query_too_long (length query))
  check tcp_context c.context_before
  check (fail tcp_set_deadline) (flatten_error c.deadline)
  wrap_err (fail tcp_write) (write_full (tcp_frame query) c.writes []).0
  read_response c

-- The network that `exchangeTCP` dials: the context before, and the failed dial or the connection.
pub record TcpNetwork : Type 0 where
  pub context_first : Option IoError
  pub dial_failure : Option IoError
  pub dial_view : ContextView
  pub conn : TcpConn

unfoldable pub exchange_tcp : TcpNetwork → Bytes → Outcome TcpError Bytes
exchange_tcp n query = do
  fail_if (ltb 65535 (length query)) (query_too_long (length query))
  check tcp_context n.context_first
  check (λ e. tcp_dial (lookup_io_error n.dial_view e)) n.dial_failure
  exchange_tcp_conn n.conn query
