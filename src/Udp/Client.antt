-- ===== src/Udp/Client.antt =====
-- udp/protocol/client/main.go: the loop of attempts. The socket is a script.
pub mod Retry
use go_network_lab.Base.{
  ℕ, zero, suc, ◌+◌, ◌≤◌, ◌≡◌, refl, ◌⊎◌, inl, inr, List, [], ◌∷◌, Option, none, some, Bytes, take,
  length, Outcome, ok, err, panic, stuck, Option-cases, Outcome-cases, arith,
}
use go_network_lab.Base.Io.{IoError}
use go_network_lab.Udp.Message.{
  Request, Response, Json, ValidateError, validate_for, decode_response,
}

-- What one attempt meets: the error of `Write`, of `SetReadDeadline`, and a datagram or an error.
pub record Attempt : Type 0 where
  pub write_failure : Option IoError
  pub deadline_failure : Option IoError
  pub reply : Bytes ⊎ IoError

-- How the client ends: with a response that it prints; by `log.Fatal`; after its attempts; or it
-- waits for ever (`silent`).
pub data ClientEnd (E : Type 0) : Type 0 where
  answered : Response → ClientEnd E
  write_failed deadline_failed : IoError → ClientEnd E
  undecodable : E → ClientEnd E
  unsuitable : ValidateError → ClientEnd E
  gave_up silent broken : ClientEnd E

module _ (json : Json) where
  -- The end of an attempt that has received a datagram, of which the buffer takes 1024 bytes.
  unfoldable pub conclude_reply : Request → Bytes → ClientEnd json.JsonError
  conclude_reply req datagram = elim (decode_response json (take 1024 datagram)) [
    | ok response ↦ elim (validate_for response req) [
      | none ↦ answered response
      | some e ↦ unsuitable e
    ]
    | err e ↦ undecodable e
    | panic ↦ broken
    | stuck ↦ broken
  ]

  -- The loop, with the attempts left; the number counts the datagrams sent.
  unfoldable pub attempt_loop : ℕ → Request → List Attempt → ℕ → ClientEnd json.JsonError × ℕ
  attempt_loop zero req attempts sent = (gave_up, sent)
  attempt_loop (suc n) req [] sent = (silent, sent)
  attempt_loop (suc n) req (a ∷ attempts) sent =
      let retry = attempt_loop n req attempts (sent + 1) in
      elim a.write_failure [
        | some e ↦ (write_failed e, sent)
        | none ↦ elim a.deadline_failure [
          | some e ↦ (deadline_failed e, sent + 1)
          | none ↦ elim a.reply [
            | inr e ↦ retry
            | inl datagram ↦ (conclude_reply req datagram, sent + 1)
          ]
        ]
      ]

  unfoldable pub run_client : Request → List Attempt → ClientEnd json.JsonError × ℕ
  run_client req attempts = attempt_loop 2 req attempts 0
