-- ===== src/Protocol/Server.antt =====
-- tcp/protocol/server/main.go: `handleConnection`. The clock and the connection are scripts.
pub mod Conversation
use go_network_lab.Base.{
  ℕ, Bool, List, [], ◌∷◌, ◌++◌, Option, none, some, Bytes, if◌then◌else◌, Outcome, ok, err, panic,
  stuck,
}
use go_network_lab.Base.Io.{IoError, Stream, WriteResult}
use go_network_lab.Protocol.Message.{
  Request, Response, PlainRequest, PlainResponse, Invalid, DispatchResult, dispatch,
}
use go_network_lab.Protocol.Frame.{Codec, WriteError, ReadError, Written, write, read}

-- One round of the loop: what `SetReadDeadline` returns, and the time as text.
pub record Turn : Type 0 where
  pub deadline : Option IoError
  pub now : Bytes

-- Why the handler has returned; `turns_over` where the turns in store have run out before that.
pub data Ending (E : Type 0) : Type 0 where
  set_deadline_failed : IoError → Ending E
  read_failed : ReadError E → Ending E
  write_failed : WriteError → Ending E
  closed_after_error turns_over panicked blocked : Ending E

-- The ending, and all that was sent.
abbrev pub Served : Type 0 → Type 0
Served E = Ending E × Bytes

module _ {E : Type 0} where
  abbrev pub after_read :
      {A : Type 0} → Bytes → Outcome (ReadError E) A × Stream → (A → Stream → Served E) → Served E
  after_read sent (ok a, s) k = k a s
  after_read sent (err e, s) k = (read_failed e, sent)
  after_read sent (panic, s) k = (panicked, sent)
  after_read sent (stuck, s) k = (blocked, sent)

  abbrev pub after_write : Written WriteError → (List WriteResult → Bytes → Served E) → Served E
  after_write (ok u, sent, plan) k = k plan sent
  after_write (err e, sent, plan) k = (write_failed e, sent)
  after_write (panic, sent, plan) k = (panicked, sent)
  after_write (stuck, sent, plan) k = (blocked, sent)

module _ (requests : Codec Request PlainRequest) (responses : Codec Response PlainResponse)
    (error_text : Invalid → Bytes) where
  -- `sent` is what was sent before.
  unfoldable pub handle_connection :
      List Turn → Stream → List WriteResult → Bytes → Served requests.JsonError
  handle_connection [] s plan sent = (turns_over, sent)
  handle_connection (t ∷ ts) s plan sent = elim t.deadline [
    | some e ↦ (set_deadline_failed e, sent)
    | none ↦ after_read sent (read requests s) (λ request s'.
        let result = dispatch error_text request t.now in
        after_write (write responses result.response plan sent) (λ plan' sent'.
          let rest = handle_connection ts s' plan' sent' in
          if result.close_connection then (closed_after_error, sent') else rest))
  ]
