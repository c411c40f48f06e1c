-- ===== src/Http/Tests.antt =====
-- Tests of internal/rawhttp.
use go_network_lab.Base.{
  ℕ, ◌-◌, ◌≡◌, ◌≢◌, ◌++◌, length, false, true, refl, ◌⊎◌, inl, inr, ok, List, [], ◌∷◌, none, some,
  Bytes, codes, bytes_eq,
}
use go_network_lab.Base.Strings.{split, join}
use go_network_lab.Base.Spaces.{space_width, trim_front, trim_space}
use go_network_lab.Http.Parser
use go_network_lab.Base.Io.{eof, unexpected_eof, net_error, WriteResult, write_full}
use go_network_lab.Http.Reader.{
  ReadEvent, Reader, read_bytes, read_full, read_some, fill, has_prefix, index_of, finish_read,
  line_loop, read_chunk_line, io,
}
use go_network_lab.Http.Syntax.{
  Request, values_of, add_value, check_hosts, is_token_byte, is_valid_header_name,
  is_valid_header_value, is_value_byte, to_lower, validate_request_semantics, validate_request,
  route, should_close, scan_values, scan_tokens,
}
use go_network_lab.Http.Body.{
  atoi, content_length, read_body, chunk_loop, chunk_round, chunk_size, number_from, read_chunk,
  read_chunked_body,
}
use go_network_lab.Http.Body.Meaning.{Sized, Chunked, read_body-eq-ok}
use go_network_lab.Http.Parser.{
  read_request, read_head, head_loop, parse_head, split_lines, check_lines, parse_request_line,
  parse_headers, parse_header, cut_colon, store_header, trim_back,
}
use go_network_lab.Http.Reader.Behaves.{Behaves}
use go_network_lab.Http.Body.Chunks.{LoopRead, read_chunked_body-Chunked}
use go_network_lab.Http.Server.Answers.{Answers, refusal, handle_http-Answers, handle_http-returns}
use go_network_lab.Http.Server.{
  handle_http, serve_loop, write_response, response_text, decimal, digits, bad_request, blocked,
}
use go_network_lab.Http.Parser.Meaning.{Accepted, read_request-Accepted}

abbrev event : Bytes → ReadEvent
event bytes = record { arrived = bytes; failure = none }

-- Two requests in pieces, the second of which is cut off.
abbrev two_requests : Reader
two_requests = record {
  buffer = [];
  events =
      event (codes "POST /echo HTTP/1.1\r\nHo")
      ∷ event (codes "st: here\r\nContent-Length: 4\r\n\r")
      ∷ event (codes "\nab")
      ∷ record { arrived = codes "cdGET"; failure = some eof }
      ∷ [];
  read_err = none;
}

abbrev echo_request : Request
echo_request = record {
  method = codes "POST";
  target = codes "/echo";
  http_version = codes "HTTP/1.1";
  headers = (codes "host", codes "here" ∷ []) ∷ (codes "content-length", codes "4" ∷ []) ∷ [];
  body = codes "abcd";
}

abbrev behind : Reader
behind = record {
  buffer = [];
  events = record { arrived = codes "GET"; failure = some eof } ∷ [];
  read_err = none;
}

abbrev lengths : List Bytes
lengths = codes "12" ∷ codes "012" ∷ []

abbrev twelve : ℕ
twelve = 12

read_request-Accepted_example : Accepted two_requests echo_request behind
unfolding read_request read_head head_loop index_of has_prefix fill read_some parse_head split_lines
    check_lines parse_request_line split validate_request bytes_eq parse_headers parse_header
    cut_colon store_header space_width trim_front go_network_lab.Http.Parser.trim_front trim_space
    join atoi chunk_loop chunk_round chunk_size content_length number_from read_body read_chunk
    read_chunked_body trim_back finish_read line_loop read_bytes read_chunk_line read_full add_value
    check_hosts is_token_byte is_valid_header_name is_valid_header_value is_value_byte to_lower
    validate_request_semantics values_of
read_request-Accepted_example = read_request-Accepted 1000 two_requests echo_request behind refl

abbrev four_more : Reader
four_more = record { buffer = codes "ab"; events = event (codes "cdX") ∷ []; read_err = none }

abbrev after_four : Reader
after_four = record { buffer = []; events = event (codes "X") ∷ []; read_err = none }

read_body-eq-ok_example :
    Sized four_more echo_request.headers (codes "abcd") after_four
    ⊎ Chunked four_more echo_request.headers (codes "abcd") after_four
unfolding read_body values_of bytes_eq content_length atoi number_from read_bytes finish_read
    read_full read_some
read_body-eq-ok_example =
    read_body-eq-ok 1000 four_more echo_request.headers (codes "abcd") after_four refl

-- A chunked body in pieces, and what follows it.
abbrev in_chunks : Reader
in_chunks = record {
  buffer = codes "3\r";
  events =
      event (codes "\nab")
      ∷ event (codes "c\r\nA\r\n0123456789\r\n00\r\n\r\nG")
      ∷ record { arrived = []; failure = some eof }
      ∷ [];
  read_err = none;
}

behind_chunks :
    (rest : Reader) × (read_chunked_body 100 in_chunks ≡ ok (codes "abc0123456789", rest))
unfolding read_chunked_body chunk_loop chunk_round chunk_size number_from read_chunk read_bytes
    finish_read read_full read_some read_chunk_line line_loop index_of has_prefix fill bytes_eq
behind_chunks = (_, refl)

read_chunked_body-Chunked_example :
    Behaves in_chunks (LoopRead [] in_chunks) (read_chunked_body 100 in_chunks)
read_chunked_body-Chunked_example = read_chunked_body-Chunked 100 in_chunks

-- The first request is answered in full, by two calls of `Write`; the second is cut off, and refused.
abbrev echoed : Bytes
echoed = response_text (codes "200 OK") (codes "abcd") false

abbrev taken : ℕ → WriteResult
taken n = record { count = n; failure = none }

abbrev two_writes : List WriteResult
two_writes = taken 90 ∷ taken (length echoed - 90) ∷ taken (length refusal) ∷ []

handle_http-Answers_example :
    Answers 1000 two_requests two_writes
      (bad_request (io unexpected_eof) (ok tt))
      (echoed ++ refusal)
unfolding handle_http serve_loop write_response write_full response_text decimal digits route
    should_close scan_values scan_tokens read_request read_head head_loop index_of has_prefix fill
    read_some parse_head split_lines check_lines parse_request_line split validate_request bytes_eq
    parse_headers parse_header cut_colon store_header space_width trim_front
    go_network_lab.Http.Parser.trim_front trim_space join atoi chunk_loop chunk_round chunk_size
    content_length number_from read_body read_chunk read_chunked_body trim_back finish_read
    line_loop read_bytes read_chunk_line read_full add_value check_hosts is_token_byte
    is_valid_header_name is_valid_header_value is_value_byte to_lower validate_request_semantics
    values_of
handle_http-Answers_example = handle_http-Answers 1000 two_requests two_writes

-- The connection ends behind the second request, and the third write fails.
abbrev then_ends : Reader
then_ends = record two_requests {
  events =
      event (codes "GET / HTTP/1.1\r\nHost: a\r\n\r\nGE")
      ∷ record { arrived = []; failure = some eof }
      ∷ [];
}

abbrev then_fails : List WriteResult
then_fails = taken 90 ∷ taken 20 ∷ record { count = 0; failure = some (net_error true 0) } ∷ []

handle_http-returns_example : (handle_http 1000 then_ends then_fails).0 ≢ blocked
handle_http-returns_example =
    handle_http-returns 1000 then_ends then_fails (inr (inr (inl (refl, λ e. cc))))
      (inr (inr (inl λ e. cc)))
