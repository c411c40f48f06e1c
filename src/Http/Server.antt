-- ===== src/Http/Server.antt =====
-- internal/rawhttp/response.go, and `HandleConnection` of server.go.
pub mod Answers
pub mod Length
use go_network_lab.Base.{
  ℕ, zero, suc, ◌+◌, ◌/◌, ◌%◌, Bool, true, false, List, [], ◌∷◌, ◌++◌, Bytes, codes, length, ltb,
  if◌then◌else◌, Outcome, ok, err, panic, stuck,
}
use go_network_lab.Base.Io.{IoError, WriteResult, write_full}
use go_network_lab.Http.Reader.{HttpError, is_eof, Reader, supply}
use go_network_lab.Http.Syntax.{Request, should_close, route}
use go_network_lab.Http.Parser.{read_request}

-- The digits of a number before those in `later`. A Go length has at most 19.
unfoldable pub digits : ℕ → ℕ → Bytes → Bytes
digits zero n later = later
digits (suc fuel) n later = elim (ltb n 10) [
  | true ↦ (b'0' + n) ∷ later
  | false ↦ digits fuel (n / 10) ((b'0' + n % 10) ∷ later)
]

-- `%d`
unfoldable pub decimal : ℕ → Bytes
decimal n = digits 20 n []

unfoldable pub response_text : Bytes → Bytes → Bool → Bytes
response_text status body close =
    codes "HTTP/1.1 "
    ++ (status
        ++ (codes "\r\nContent-Length: "
            ++ (decimal (length body)
                ++ (codes "\r\nContent-Type: text/plain\r\nConnection: "
                    ++ ((if close then codes "close" else codes "keep-alive")
                        ++ (codes "\r\n\r\n" ++ body))))))

-- The result, all that was sent, and the calls of `Write` left; `sent` is what was sent before.
unfoldable pub write_response :
    List WriteResult
    → Bytes
    → Bytes
    → Bytes
    → Bool
    → Outcome IoError (Unit {0}) × Bytes × List WriteResult
write_response plan sent status body close = write_full (response_text status body close) plan sent

-- Why `HandleConnection` has returned; `blocked` where a read or a write waits for ever.
pub data HttpEnding : Type 0 where
  peer_closed : HttpEnding
  bad_request : HttpError → Outcome IoError (Unit {0}) → HttpEnding
  write_failed : IoError → HttpEnding
  closed panicked blocked : HttpEnding

abbrev pub HttpServed : Type 0
HttpServed = HttpEnding × Bytes

abbrev pub after_request :
    List WriteResult
    → Bytes
    → Outcome HttpError (Request × Reader)
    → (Request → Reader → HttpServed)
    → HttpServed
after_request plan sent (ok (request, r)) k = k request r
after_request plan sent (err e) k =
    let (result, sent', plan') =
      write_response plan sent (codes "400 Bad Request") (codes "Bad Request") true in
    if is_eof e then (peer_closed, sent) else (bad_request e result, sent')
after_request plan sent panic k = (panicked, sent)
after_request plan sent stuck k = (blocked, sent)

abbrev pub after_response :
    Outcome IoError (Unit {0}) × Bytes × List WriteResult
    → (Bytes → List WriteResult → HttpServed)
    → HttpServed
after_response (ok u, sent, plan) k = k sent plan
after_response (err e, sent, plan) k = (write_failed e, sent)
after_response (panic, sent, plan) k = (panicked, sent)
after_response (stuck, sent, plan) k = (blocked, sent)

module _ (max_alloc : ℕ) where
  unfoldable pub serve_loop : ℕ → Reader → List WriteResult → Bytes → HttpServed
  serve_loop zero r plan sent = (blocked, sent)
  serve_loop (suc fuel) r plan sent =
      after_request plan sent (read_request max_alloc r) (λ request r'.
        let (status, body) = route request in
        let close = should_close request in
        after_response (write_response plan sent status body close) (λ sent' plan'.
          let rest = serve_loop fuel r' plan' sent' in if close then (closed, sent') else rest))

  -- Every request takes bytes off the connection, so there are no more rounds than bytes.
  unfoldable pub handle_http : Reader → List WriteResult → HttpServed
  handle_http r plan = serve_loop (suc (length r.buffer + supply r.events)) r plan []
