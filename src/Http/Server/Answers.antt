-- ===== src/Http/Server/Answers.antt =====
-- What `HandleConnection` of internal/rawhttp/server.go sends, and how it ends.
use go_network_lab.Base.{
  ℕ, zero, suc, ◌+◌, ◌<◌, ◌≡◌, refl, sym, ap, subst, ◌∙◌, inl, inr, true, false, Bool-cases, Option,
  none, some, List, ◌≢◌, [], ◌++◌, append_assoc, append-nil, Bytes, codes, length, if◌then◌else◌,
  Outcome, ok, err, panic, stuck, arith,
}
use go_network_lab.Base.Io.{IoError, WriteResult, write_full}
use go_network_lab.Base.Io.Writing.{
  Sends, write_full-Sends, write_full-shift, FailsLater, Comes, write_full-Comes,
}
use go_network_lab.Http.Reader.{HttpError, is_eof, Reader, supply}
use go_network_lab.Http.Reader.Progress.{Live, left, Uses}
use go_network_lab.Http.Reader.Behaves.{Behaves}
use go_network_lab.Http.Syntax.{Request, should_close, route}
use go_network_lab.Http.Parser.{read_request}
use go_network_lab.Http.Parser.Progress.{read_request-Uses}
use go_network_lab.Http.Parser.Meaning.{Accepted, read_request-Accepted}
use go_network_lab.Http.Server.{
  response_text, write_response, HttpEnding, peer_closed, bad_request, write_failed, closed,
  panicked, blocked, HttpServed, after_response, serve_loop, handle_http,
}

-- The response to a request.
abbrev pub answer : Request → Bytes
answer q = response_text ((route q).0) ((route q).1) (should_close q)

abbrev pub refusal : Bytes
refusal = response_text (codes "400 Bad Request") (codes "Bad Request") true

-- How the loop ends where a write has not succeeded.
abbrev pub unsent : Outcome IoError (Unit {0}) → Option HttpEnding
unsent (ok u) = none
unsent (err e) = some (write_failed e)
unsent panic = some panicked
unsent stuck = some blocked

-- What is sent to the bytes that a reader delivers, where the calls of `Write` go as in the plan, and
-- how the connection ends: each request that stands there gets its response in full, and the next one
-- is read unless the request closes the connection, or the write did not succeed; an error of the
-- reading ends it, with a refusal unless the peer has closed the connection.
pub data Answers (max_alloc : ℕ) : Reader → List WriteResult → HttpEnding → Bytes → Type 0 where
  hung_up :
      (r : Reader) (plan : List WriteResult) (e : HttpError)
      → read_request max_alloc r ≡ err e
      → is_eof e ≡ true
      → Answers max_alloc r plan peer_closed []
  refused :
      (r : Reader) (plan plan' : List WriteResult) (e : HttpError)
      (result : Outcome IoError (Unit {0})) (part : Bytes)
      → read_request max_alloc r ≡ err e
      → is_eof e ≡ false
      → write_full refusal plan [] ≡ (result, part, plan')
      → Answers max_alloc r plan (bad_request e result) part
  crashed :
      (r : Reader) (plan : List WriteResult)
      → read_request max_alloc r ≡ panic
      → Answers max_alloc r plan panicked []
  waiting :
      (r : Reader) (plan : List WriteResult)
      → read_request max_alloc r ≡ stuck
      → (Live r → ⊥)
      → Answers max_alloc r plan blocked []
  cut_off :
      (r r' : Reader) (plan plan' : List WriteResult) (q : Request)
      (result : Outcome IoError (Unit {0})) (ending : HttpEnding) (part rest : Bytes)
      → Accepted r q r'
      → write_full (answer q) plan [] ≡ (result, part, plan')
      → unsent result ≡ some ending
      → answer q ≡ part ++ rest
      → Answers max_alloc r plan ending part
  closing :
      (r r' : Reader) (plan plan' : List WriteResult) (q : Request)
      → Accepted r q r'
      → write_full (answer q) plan [] ≡ (ok tt, answer q, plan')
      → should_close q ≡ true
      → Answers max_alloc r plan closed (answer q)
  answered :
      (r r' : Reader) (plan plan' : List WriteResult) (q : Request) (ending : HttpEnding)
      (later : Bytes)
      → Accepted r q r'
      → write_full (answer q) plan [] ≡ (ok tt, answer q, plan')
      → should_close q ≡ false
      → Answers max_alloc r' plan' ending later
      → Answers max_alloc r plan ending (answer q ++ later)

module _ (max_alloc : ℕ) where
  -- What the loop adds to what was sent, and that it ends where the connection does.
  abbrev Serves : Reader → List WriteResult → Bytes → HttpServed → Type 0
  Serves r plan sent (ending, out) =
      ((new : Bytes) × (out ≡ sent ++ new) × Answers max_alloc r plan ending new)
      × (Live r → FailsLater plan → ending ≢ blocked)

  replying :
      (fuel : ℕ) (r r' : Reader) (sent : Bytes) (q : Request) (plan : List WriteResult)
      → ((plan' : List WriteResult) (sent' : Bytes)
          → Serves r' plan' sent' (serve_loop max_alloc fuel r' plan' sent'))
      → Accepted r q r'
      → (Live r → Live r')
      → (w : Outcome IoError (Unit {0}) × Bytes × List WriteResult)
      → write_full (answer q) plan [] ≡ w
      → Sends (answer q) [] w
      → (FailsLater plan → Comes w)
      → Serves r plan sent (
          after_response
            (w.0, sent ++ w.1, w.2)
            λ sent' plan'.
              let rest = serve_loop max_alloc fuel r' plan' sent' in
              if should_close q then (closed, sent') else rest)
  replying fuel r r' sent q plan ih a live (ok tt, part, plan') e s comes =
      let whole : part ≡ answer q = s in
      let all : write_full (answer q) plan [] ≡ (ok tt, answer q, plan') =
        e ∙ ap (λ x. (ok tt, x, plan')) whole in
      elim (Bool-cases (should_close q)) [
        | inl closes ↦
            rw closes (
              (answer q, ap (◌++◌ sent) whole, closing r r' plan plan' q a all closes),
              λ l f b. cc,
            )
        | inr stays ↦
            let ((new, out, later), returns) = ih plan' (sent ++ part) in
            rw stays (
              (
                answer q ++ new,
                out ∙ ap (λ x. (sent ++ x) ++ new) whole ∙ append_assoc sent (answer q) new,
                answered r r' plan plan' q _ new a all stays later,
              ),
              λ l f. returns (live l) (comes f),
            )
      ]
  replying fuel r r' sent q plan ih a live (err x, part, plan') e (first, last, split, s) comes = (
    (
      part,
      refl,
      cut_off r r' plan plan' q (err x) (write_failed x) part last a e refl
          (split ∙ ap (λ y. y ++ last) (sym s)),
    ),
    λ l f b. cc,
  )
  replying fuel r r' sent q plan ih a live (panic, part, plan') e (first, last, split, s) comes = (
    (
      part,
      refl,
      cut_off r r' plan plan' q panic panicked part last a e refl
          (split ∙ ap (λ y. y ++ last) (sym s)),
    ),
    λ l f b. cc,
  )
  replying fuel r r' sent q plan ih a live (stuck, part, plan') e (first, last, split, s) comes = (
    (
      part,
      refl,
      cut_off r r' plan plan' q stuck blocked part last a e refl
          (split ∙ ap (λ y. y ++ last) (sym s)),
    ),
    λ l f b. comes f,
  )

  serve_loop-Serves :
      (fuel : ℕ) (r : Reader) (plan : List WriteResult) (sent : Bytes)
      → left r < fuel
      → Serves r plan sent (serve_loop max_alloc fuel r plan sent)
  unfolding serve_loop write_response
  serve_loop-Serves zero r plan sent h = absurd (omega arith)
  serve_loop-Serves (suc fuel) r plan sent h =
      go (λ r' plan' sent'. serve_loop-Serves fuel r' plan' sent') (read_request max_alloc r) refl
        (read_request-Uses max_alloc r)
    where
      go :
          ((r' : Reader) (plan' : List WriteResult) (sent' : Bytes)
            → left r' < fuel
            → Serves r' plan' sent' (serve_loop max_alloc fuel r' plan' sent'))
          → (x : Outcome HttpError (Request × Reader)) → read_request max_alloc r ≡ x
          → Behaves r (λ (q, r'). Uses r 4 r') x
          → Serves r plan sent (serve_loop max_alloc (suc fuel) r plan sent)
      go ih (ok (q, r')) e (used, live) =
          rw (e, serve_loop)
            (rw (write_full-shift (answer q) plan sent) (
              replying fuel r r' sent q plan (λ plan' sent'. ih r' plan' sent' (omega arith))
                (read_request-Accepted max_alloc r q r' e) live (write_full (answer q) plan []) refl
                (write_full-Sends (answer q) plan []) (write_full-Comes (answer q) plan [])))
      go ih (err x) e _ = elim (Bool-cases (is_eof x)) [
        | inl end ↦
            rw (e, end, serve_loop)
              (([], sym (append-nil sent), hung_up r plan x e end), λ l f b. cc)
        | inr other ↦
            let w = write_full refusal plan [] in
            rw (e, other, serve_loop)
              (rw (write_full-shift refusal plan sent)
                ((w.1, refl, refused r plan (w.2) x (w.0) (w.1) e other refl), λ l f b. cc))
      ]
      go ih panic e _ =
          rw (e, serve_loop) (([], sym (append-nil sent), crashed r plan e), λ l f b. cc)
      go ih stuck e never =
          rw (e, serve_loop)
            (([], sym (append-nil sent), waiting r plan e never), λ l f b. absurd (never l))

  -- What HandleConnection sends, and how it ends, where the calls of `Write` go as in the plan: the
  -- requests that stand one behind the other in what the connection delivers, each said by the bytes
  -- of its head, get their responses in order and in full, and behind each the next one is read, until
  -- one closes the connection, a write does not succeed, or no request can be read; then nothing
  -- follows but a refusal, unless the peer has closed the connection.
  pub handle_http-Answers :
      (r : Reader) (plan : List WriteResult)
      → (let (ending, sent) = handle_http max_alloc r plan in Answers max_alloc r plan ending sent)
  unfolding handle_http
  handle_http-Answers r plan =
      let fuel = suc (length r.buffer + supply r.events) in
      let ((new, out, a), _) = serve_loop-Serves fuel r plan [] (omega arith) in
      subst (Answers max_alloc r plan ((serve_loop max_alloc fuel r plan []).0)) (sym out) a

  -- HandleConnection neither runs nor waits for ever: it ends, if at some time a read of the connection
  -- fails that brings no bytes, and a write fails.
  pub handle_http-returns :
      (r : Reader) (plan : List WriteResult)
      → Live r
      → FailsLater plan
      → (handle_http max_alloc r plan).0 ≢ blocked
  unfolding handle_http
  handle_http-returns r plan live fails =
      (serve_loop-Serves (suc (length r.buffer + supply r.events)) r plan [] (omega arith)).1 live
        fails
