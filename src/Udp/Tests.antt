-- ===== src/Udp/Tests.antt =====
-- Tests of udp/protocol, on a JSON codec made up for them.
use go_network_lab.Base.{
  ℕ, ◌≡◌, refl, ◌⊎◌, inl, inr, Bool, true, false, List, [], ◌∷◌, ◌++◌, none, some, Bytes, codes, ok,
  length, take, drop, take-append, drop-append, ◌+◌, arith,
}
use go_network_lab.Base.{bytes_eq}
use go_network_lab.Base.Utf8.{valid_utf8, valid_from}
use go_network_lab.Base.Spaces.{trim_space}
use go_network_lab.Udp.Message.{
  Request, Response, Json, validate, validate_for, decode_request, encode_request, encode_response,
  decode_response,
}
use go_network_lab.Base.Io.{deadline_exceeded}
use go_network_lab.Udp.Client.{Attempt, answered, run_client, attempt_loop, conclude_reply}
use go_network_lab.Udp.Client.Retry.{
  lost, replied, run_client-retried, CameWith, run_client-CameWith,
}
use go_network_lab.Udp.Handler.{
  Processed, RequestKey, handle, Packet, serve_one, serve, lookup, insert, respond, handle_request,
}
use go_network_lab.Udp.Handler.Refinement.{all_replies, first_answer, serve-all_replies}
use go_network_lab.Udp.Handler.Cache.{handle-replayed, serve_one-answers}

abbrev put : ℕ → Bytes → Bytes → Bytes
put id a b = id ∷ length a ∷ a ++ b

abbrev get_request : Bytes → Request ⊎ ℕ
get_request (id ∷ n ∷ rest) =
    inl (record { id = id; operation = take n rest; payload = drop n rest })
get_request _ = inr 0

abbrev get_response : Bytes → Response ⊎ ℕ
get_response (id ∷ n ∷ rest) = inl (record { id = id; status = take n rest; payload = drop n rest })
get_response _ = inr 0

drop_prefix : (xs ys : Bytes) → drop (length xs) (xs ++ ys) ≡ ys
drop_prefix xs ys = let z : length xs + 0 ≡ length xs = omega arith in rw z at (drop-append xs ys 0)

abbrev json : Json
json = record {
  JsonError = ℕ;
  marshal_request = λ r. put r.id r.operation r.payload;
  unmarshal_request = get_request;
  marshal_response = λ r. put r.id r.status r.payload;
  unmarshal_response = get_response;
  request_restored =
      λ r _. rw (take-append r.operation r.payload, drop_prefix r.operation r.payload) refl;
  response_restored =
      λ r _. rw (take-append r.status r.payload, drop_prefix r.status r.payload) refl;
}

abbrev time_request : Request
time_request = record { id = 7; operation = codes "TIME"; payload = [] }

abbrev noon : Bytes
noon = codes "12:00"

abbrev served : Processed × Response × Bool
served = handle_request [] noon (codes "peer") time_request

abbrev others : List (Packet json)
others =
    record { addr = codes "peer"; bytes = codes ""; now = codes "12:01" }
    ∷ record { addr = codes "other"; bytes = encode_request json time_request; now = codes "12:02" }
    ∷ []

handle-replayed_example :
    handle json
      (serve json served.0 others).0
      (codes "13:00")
      (codes "peer")
      (encode_request json time_request)
    ≡ (
      (serve json served.0 others).0,
      ok (record { id = 7; status = codes "OK"; payload = noon }, true),
    )
unfolding handle decode_request encode_request validate handle_request respond lookup insert
    trim_space bytes_eq
handle-replayed_example =
    handle-replayed json [] served.0 noon (codes "peer") (encode_request json time_request) served.1
      false refl others (codes "13:00")

serve_one-answers_example :
    (r : Response) × ((serve_one json
        (serve json [] others).0
        (record { addr = codes "peer"; bytes = encode_request json time_request; now = noon })).1
      ≡ some (codes "peer", encode_response json r))
    × (decode_response json (encode_response json r) ≡ ok r)
    × (validate_for r time_request ≡ none)
unfolding encode_request validate trim_space valid_utf8 valid_from
serve_one-answers_example =
    serve_one-answers json others noon (codes "peer") time_request (refl, (refl, tt)) refl
      (omega arith, refl, refl) refl (omega arith)

abbrev noon_response : Response
noon_response = record { id = 7; status = codes "OK"; payload = noon }

run_client-retried_example :
    ((serve_one json (serve json served.0 others).0 (record {
      addr = codes "peer";
      bytes = encode_request json time_request;
      now = codes "13:00";
    })).1
      ≡ some (codes "peer", encode_response json noon_response))
    × (run_client json time_request (
          lost json time_request deadline_exceeded
          ∷ replied json time_request (encode_response json noon_response)
          ∷ [])
        ≡ (answered noon_response, 2))
unfolding handle decode_request encode_request validate handle_request respond lookup insert
    trim_space bytes_eq validate_for valid_utf8 valid_from encode_response
run_client-retried_example =
    run_client-retried json time_request [] served.0 noon (codes "13:00") (codes "peer")
      noon_response false others deadline_exceeded refl (omega arith) (omega arith)
      (omega arith, refl, refl) refl

abbrev replies : List Attempt
replies = replied json time_request (put 7 (codes "OK") noon) ∷ []

run_client-CameWith_example : CameWith json time_request 2 replies noon_response
unfolding run_client attempt_loop conclude_reply decode_response validate_for bytes_eq
run_client-CameWith_example = run_client-CameWith json time_request replies noon_response refl

serve-all_replies_example :
    ((serve json [] others).1 ≡ all_replies json [] others)
    × ((k : RequestKey) → lookup k (serve json [] others).0 ≡ first_answer json k others)
serve-all_replies_example = serve-all_replies json others
