-- ===== src/Protocol/Server/Conversation.antt =====
-- A conversation with the server over a connection that does not fail.
use go_network_lab.Base.{
  ◌≡◌, ◌≤◌, ◌%◌, suc, refl, ap, ◌∙◌, inl, inr, false, List, [], ◌∷◌, ◌++◌, append_assoc, append-nil,
  none, Bytes, length, take, drop, ltb, ◌==◌, if◌then◌else◌, ok, err, arith, Bool-cases, All,
  take_all, u32_mod, put_uint32,
}
use go_network_lab.Base.Io.{eof, Stream, WriteResult, write_full, read_full, end_error}
use go_network_lab.Base.Io.Reading.{to_come, read_full_short}
use go_network_lab.Protocol.Message.{
  Request, Response, PlainRequest, PlainResponse, Invalid, DispatchResult, dispatch,
}
use go_network_lab.Protocol.Frame.{Codec, read_length, write, write_second, read, max_frame_size}
use go_network_lab.Protocol.Frame.RoundTrip.{frame, read-frame, decode-marshal}
use go_network_lab.Protocol.Server.{
  Turn, Ending, read_failed, closed_after_error, handle_connection,
}

-- The one call of `Write` that takes all the data, as a `net.Conn` does if it does not fail.
abbrev pub full_write : Bytes → List WriteResult
full_write [] = []
full_write (x ∷ bytes) = record { count = length (x ∷ bytes); failure = none } ∷ []

drop-length : (xs : Bytes) → drop (length xs) xs ≡ []
drop-length [] = refl
drop-length (x ∷ xs) = drop-length xs

write_full-full_write :
    (bytes sent : Bytes) (plan : List WriteResult)
    → write_full bytes (full_write bytes ++ plan) sent ≡ (ok tt, sent ++ bytes, plan)
unfolding write_full
write_full-full_write [] sent plan = rw append-nil
write_full-full_write (x ∷ bytes) sent plan =
    let n = length bytes in
    let some_bytes : (suc n == 0) ≡ false = ground arith in
    let within : ltb (suc n) (suc n) ≡ false = ground arith in
    let all : take n bytes ≡ bytes = take_all n bytes (omega arith) in
    let none_left : drop n bytes ≡ [] = drop-length bytes in
    rw (some_bytes, within, all, none_left) refl

module _ (requests : Codec Request PlainRequest) (responses : Codec Response PlainResponse)
    (error_text : Invalid → Bytes) where
  -- A request, and the time at which it is handled.
  abbrev pub Timed : Type 0
  Timed = Request × Bytes

  abbrev result : Timed → DispatchResult
  result (r, now) = dispatch error_text r now

  -- What the server should answer: each request, up to the first that closes the connection.
  unfoldable pub answers : List Timed → List Response
  answers [] = []
  answers (x ∷ xs) =
      let rest = answers xs in
      (result x).response ∷ (if (result x).close_connection then [] else rest)

  -- How the handle_connection-answers should end: by such a request, or by the end of the stream.
  unfoldable pub ending : List Timed → Ending requests.JsonError
  ending [] = read_failed (read_length eof)
  ending (x ∷ xs) =
      let rest = ending xs in if (result x).close_connection then closed_after_error else rest

  abbrev pub frames : List Response → Bytes
  frames [] = []
  frames (p ∷ ps) = frame (responses.marshal p) ++ frames ps

  abbrev pub incoming : List Timed → Bytes
  incoming [] = []
  incoming ((r, now) ∷ xs) = frame (requests.marshal r) ++ incoming xs

  abbrev pub writes : List Response → List WriteResult
  writes [] = []
  writes (p ∷ ps) =
      full_write (put_uint32 (length (responses.marshal p)))
      ++ (full_write (responses.marshal p) ++ writes ps)

  abbrev pub turns : List Timed → List Turn
  turns [] = record { deadline = none; now = [] } ∷ []
  turns ((r, now) ∷ xs) = record { deadline = none; now = now } ∷ turns xs

  abbrev FitsFrame : Response → Type 0
  FitsFrame p = length (responses.marshal p) ≤ max_frame_size

  write-full_write :
      (p : Response) (ps : List Response) (sent : Bytes)
      → FitsFrame p
      → write responses p (writes (p ∷ ps)) sent
        ≡ (ok tt, sent ++ frame (responses.marshal p), writes ps)
  unfolding write write_second
  write-full_write p ps sent fits =
      let payload = responses.marshal p in
      let header = put_uint32 (length payload) in
      let true_length : length payload % u32_mod ≡ length payload = ground arith in
      let small : ltb max_frame_size (length payload) ≡ false = ground arith in
      let first = write_full-full_write header sent (full_write payload ++ writes ps) in
      let second = write_full-full_write payload (sent ++ header) (writes ps) in
      let whole : write_second payload (write_full header (writes (p ∷ ps)) sent)
          ≡ (ok tt, sent ++ frame payload, writes ps) =
        ap (write_second payload) first
        ∙ rw (second, write_second) (rw (append_assoc sent header payload) refl) in
      rw (small, write) (rw true_length whole)

  read-end :
      (s : Stream)
      → to_come s ≡ []
      → s.failure ≡ eof
      → (s' : Stream) × (read requests s ≡ (err (read_length eof), s'))
  unfolding read
  read-end s bytes end =
      let short = read_full_short 4 s (rw bytes (omega arith)) in
      let at_end : end_error (to_come s) s.failure ≡ eof = rw (bytes, end) refl in
      let rest : Stream = record s { chunks = [] } in
      let failed : read_full 4 s ≡ (err eof, rest) = short ∙ ap (λ e. (err e, rest)) at_end in
      (rest, rw (failed, read) refl)

  round :
      (t : Turn) (ts : List Turn) (s s' : Stream) (r : Request) (ps : List Response) (sent : Bytes)
      → t.deadline ≡ none
      → read requests s ≡ (ok r, s')
      → (let d = dispatch error_text r t.now in
          FitsFrame d.response
          → handle_connection requests responses error_text
              (t ∷ ts)
              s
              (writes (d.response ∷ ps))
              sent
            ≡ (if d.close_connection
                then (closed_after_error, sent ++ frame (responses.marshal d.response))
                else handle_connection requests responses error_text ts s'
                    (writes ps)
                    (sent ++ frame (responses.marshal d.response))))
  unfolding handle_connection
  round t ts s s' r ps sent fine got fits =
      let written = write-full_write (dispatch error_text r t.now).response ps sent fits in
      rw (fine, handle_connection) (rw got (rw written refl))

  at_end :
      (t : Turn) (s : Stream) (plan : List WriteResult) (sent : Bytes)
      → t.deadline ≡ none
      → to_come s ≡ []
      → s.failure ≡ eof
      → handle_connection requests responses error_text (t ∷ []) s plan sent
        ≡ (read_failed (read_length eof), sent)
  unfolding handle_connection
  at_end t s plan sent fine bytes end =
      let (s', e) = read-end s bytes end in rw (fine, handle_connection) (rw e refl)

  -- Over a connection that takes every write whole, and delivers frames of plain requests in any
  -- pieces and then the end of the stream, the server sends the responses that `dispatch` gives, each
  -- in one frame and in order, up to the first that closes the connection, and then returns. The
  -- responses fit into frames.
  pub handle_connection-answers :
      (xs : List Timed) (s : Stream) (sent : Bytes)
      → All (λ x. PlainRequest x.0) xs
      → All (λ x. length (requests.marshal x.0) ≤ max_frame_size) xs
      → All FitsFrame (answers xs)
      → to_come s ≡ incoming xs
      → s.failure ≡ eof
      → handle_connection requests responses error_text (turns xs) s (writes (answers xs)) sent
        ≡ (ending xs, sent ++ frames (answers xs))
  unfolding answers ending
  handle_connection-answers [] s sent plain fits fits' bytes end =
      rw (append-nil sent) (at_end _ s [] sent refl bytes end)
  handle_connection-answers ((r, now) ∷ xs) s sent (plain, plains) (fit, fits) fits' bytes end =
      let payload = requests.marshal r in
      let (s', got, tail, f) = read-frame requests payload (incoming xs) s fit bytes in
      let decoded = decode-marshal requests r plain in
      elim (Bool-cases (result (r, now)).close_connection) [
        | inl closes ↦
            let step =
              round _ (turns xs) s s' r [] sent refl (got ∙ ap (λ o. (o, s')) decoded) fits'.0 in
            let one_frame = append-nil (frame (responses.marshal (result (r, now)).response)) in
            rw (closes, answers, ending) (rw one_frame (rw closes at step))
        | inr stays ↦
            let step =
              round _ (turns xs) s s' r (answers xs) sent refl (got ∙ ap (λ o. (o, s')) decoded)
                fits'.0 in
            let later = rw stays at fits'.1 in
            let sent' = sent ++ frame (responses.marshal (result (r, now)).response) in
            let rest = handle_connection-answers xs s' sent' plains fits later tail (f ∙ end) in
            let whole =
              append_assoc sent (frame (responses.marshal (result (r, now)).response))
                (frames (answers xs)) in
            rw (stays, answers, ending) ((rw stays at step) ∙ rest ∙ ap (λ x. (ending xs, x)) whole)
      ]
