-- ===== src/Protocol/Tests.antt =====
-- Tests of the TCP protocol, on JSON codecs made up for them.
use go_network_lab.Base.{
  ℕ, ◌≡◌, ◌⊎◌, refl, inl, inr, List, [], ◌∷◌, ◌++◌, none, Bytes, codes, ok, length, take, drop,
  take-append, drop-append, ◌+◌, arith, bytes_eq, put_uint32, ◌==◌, if◌then◌else◌,
}
use go_network_lab.Base.Io.{eof, Stream, WriteResult, write_full}
use go_network_lab.Base.Io.Reading.{to_come}
use go_network_lab.Base.Ints.{ℤ, pos, negsuc}
use go_network_lab.Base.Utf8.{valid_utf8, valid_from}
use go_network_lab.Protocol.Message.{
  Request, Response, Invalid, PlainRequest, PlainResponse, validate, dispatch, reply,
  error_response,
}
use go_network_lab.Protocol.Message.Meaning.{Dispatched, dispatch-Dispatched}
use go_network_lab.Protocol.Frame.{Codec, write, read, write_second}
use go_network_lab.Protocol.Frame.RoundTrip.{frame, read-write}
use go_network_lab.Protocol.Server.{handle_connection}
use go_network_lab.Protocol.Server.Conversation.{
  handle_connection-answers, answers, ending, frames, incoming, writes, turns,
}

abbrev put_int : ℤ → Bytes → Bytes
put_int (pos n) rest = 0 ∷ n ∷ rest
put_int (negsuc n) rest = 1 ∷ n ∷ rest

abbrev get_int : ℕ → ℕ → ℤ
get_int sign n = if sign == 0 then pos n else negsuc n

drop_prefix : (xs ys : Bytes) → drop (length xs) (xs ++ ys) ≡ ys
drop_prefix xs ys = let z : length xs + 0 ≡ length xs = omega arith in rw z at (drop-append xs ys 0)

abbrev put_request : Request → Bytes
put_request r = put_int r.version (put_int r.id (length r.kind ∷ r.kind ++ r.message))

abbrev get_request : Bytes → Request ⊎ ℕ
get_request (vs ∷ v ∷ is ∷ i ∷ n ∷ rest) = inl (record {
  version = get_int vs v;
  id = get_int is i;
  kind = take n rest;
  message = drop n rest;
})
get_request _ = inr 0

request_back :
    (v i : ℤ) (kind message : Bytes)
    → get_request (put_int v (put_int i (length kind ∷ kind ++ message)))
      ≡ inl (record { version = v; id = i; kind = kind; message = message })
request_back (pos v) (pos i) kind message =
    rw (take-append kind message, drop_prefix kind message) refl
request_back (pos v) (negsuc i) kind message =
    rw (take-append kind message, drop_prefix kind message) refl
request_back (negsuc v) (pos i) kind message =
    rw (take-append kind message, drop_prefix kind message) refl
request_back (negsuc v) (negsuc i) kind message =
    rw (take-append kind message, drop_prefix kind message) refl

abbrev requests : Codec Request PlainRequest
requests = record {
  JsonError = ℕ;
  marshal = put_request;
  unmarshal = get_request;
  restored = λ r _. request_back r.version r.id r.kind r.message;
}

abbrev put_response : Response → Bytes
put_response p =
    put_int p.version
      (put_int p.id (length p.kind ∷ length p.message ∷ p.kind ++ (p.message ++ p.value)))

abbrev get_response : Bytes → Response ⊎ ℕ
get_response (vs ∷ v ∷ is ∷ i ∷ m ∷ n ∷ rest) = inl (record {
  version = get_int vs v;
  id = get_int is i;
  kind = take m rest;
  message = take n (drop m rest);
  value = drop n (drop m rest);
})
get_response _ = inr 0

response_texts :
    (kind message value : Bytes)
    → (take (length kind) (kind ++ (message ++ value)) ≡ kind)
      × (take (length message) (drop (length kind) (kind ++ (message ++ value))) ≡ message)
      × (drop (length message) (drop (length kind) (kind ++ (message ++ value))) ≡ value)
response_texts kind message value =
    let rest = drop_prefix kind (message ++ value) in
    (
      take-append kind (message ++ value),
      rw (rest, take-append message value) refl,
      rw (rest, drop_prefix message value) refl,
    )

response_back :
    (v i : ℤ) (kind message value : Bytes)
    → get_response
        (put_int v (put_int i (length kind ∷ length message ∷ kind ++ (message ++ value))))
      ≡ inl (record { version = v; id = i; kind = kind; message = message; value = value })
response_back (pos v) (pos i) k m w = let (a, b, c) = response_texts k m w in rw (a, b, c) refl
response_back (pos v) (negsuc i) k m w = let (a, b, c) = response_texts k m w in rw (a, b, c) refl
response_back (negsuc v) (pos i) k m w = let (a, b, c) = response_texts k m w in rw (a, b, c) refl
response_back (negsuc v) (negsuc i) k m w =
    let (a, b, c) = response_texts k m w in rw (a, b, c) refl

abbrev responses : Codec Response PlainResponse
responses = record {
  JsonError = ℕ;
  marshal = put_response;
  unmarshal = get_response;
  restored = λ p _. response_back p.version p.id p.kind p.message p.value;
}

abbrev ping : Request
ping = record { version = pos 1; id = pos 3; kind = codes "PING"; message = [] }

abbrev echo : Request
echo = record { version = pos 1; id = pos 4; kind = codes "ECHO"; message = codes "hi" }

abbrev bad_id : Request
bad_id = record { version = pos 1; id = negsuc 0; kind = codes "ECHO"; message = codes "hi" }

abbrev error_text : Invalid → Bytes
error_text _ = codes "invalid"

abbrev noon : Bytes
noon = codes "12:00"

-- A writer that takes two bytes, then the rest of the header, then all of the payload.
abbrev slow_writer : List WriteResult
slow_writer =
    record { count = 2; failure = none }
    ∷ record { count = 2; failure = none }
    ∷ record { count = 11; failure = none }
    ∷ []

abbrev echo_stream : Stream
echo_stream = record { chunks = (frame (put_request echo) ++ (9 ∷ 9 ∷ [])) ∷ []; failure = eof }

read-write_example :
    (s' : Stream) × (read requests echo_stream ≡ (ok echo, s')) × (to_come s' ≡ 9 ∷ 9 ∷ [])
unfolding write write_second write_full valid_utf8 valid_from
read-write_example =
    read-write requests echo slow_writer [] (9 ∷ 9 ∷ []) echo_stream
      (omega arith, omega arith, refl, refl) refl refl

abbrev large_stream : Stream
large_stream = record { chunks = put_uint32 1048577 ∷ (7 ∷ []) ∷ []; failure = eof }

dispatch-Dispatched_example : Dispatched error_text noon bad_id (dispatch error_text bad_id noon)
dispatch-Dispatched_example = dispatch-Dispatched error_text noon bad_id

-- The second request closes the connection, so the third is not answered.
abbrev talk : List (Request × Bytes)
talk = (ping, noon) ∷ (bad_id, noon) ∷ (echo, noon) ∷ []

abbrev talk_stream : Stream
talk_stream = record { chunks = incoming requests responses error_text talk ∷ []; failure = eof }

handle_connection-answers_example :
    handle_connection requests responses error_text
      (turns requests responses error_text talk)
      talk_stream
      (writes requests responses error_text (answers requests responses error_text talk))
      []
    ≡ (
      ending requests responses error_text talk,
      frames requests responses error_text (answers requests responses error_text talk),
    )
unfolding answers valid_utf8 valid_from dispatch validate reply error_response bytes_eq
handle_connection-answers_example =
    handle_connection-answers requests responses error_text talk talk_stream []
      (
        (omega arith, omega arith, refl, refl),
        ((omega arith, omega arith, refl, refl), ((omega arith, omega arith, refl, refl), tt)),
      )
      (omega arith, (omega arith, (omega arith, tt))) (omega arith, (omega arith, tt)) refl refl
