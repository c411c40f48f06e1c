-- ===== src/Lib.antt =====
-- A model of the network programs of go-network-lab, and what makes them correct.
--
-- The programs. internal/dns is a DNS client: it encodes a query, sends it over UDP, sorts the
-- answer out of the packets that arrive, repeats a truncated exchange over TCP, and takes the
-- addresses out of the response. udp/protocol is a request and response service in JSON over UDP,
-- whose server keeps each response for the duplicates of its request. protocol and
-- tcp/protocol/server are a service in JSON over TCP, in frames with a length in front.
-- internal/rawhttp is an HTTP/1.1 server that parses the requests on a connection itself; it is used
-- by tcp/http/server. load/backpressure/queue/server and load/protection/connections/server limit
-- work and connections, load/concurrency/server hashes on request, and their clients count the answers,
-- measure the latencies and report both. grpc/fundamentals is an inventory service over gRPC, with
-- interceptors in front of its handlers. A server and its client share no state, only what is sent
-- between them; where both are modelled, theorems compose them. All of it stands over Base.
--
-- Base holds what they share. A Go call is an `Outcome`: a value, an error, a panic on an index out
-- of range, or `stuck` where it blocks or runs out of fuel. Base.Words has the unsigned integers with
-- their wrap-around written out; Base.Io a byte stream with `io.ReadFull` (`read_full`) and the loop
-- that writes until all is written (`write_full`), with their properties in Base.Io.Reading and
-- Base.Io.Writing; Base.Strings, Base.Spaces and Base.Utf8 what is used of packages strings and utf8.
-- Strings and byte slices are lists of bytes, as numbers.
--
-- Dns models internal/dns: Dns.Message constants.go and message.go, Dns.Encode encode.go, Dns.Name
-- name.go (`decodeName` is `decode_name`), Dns.Decode decode.go, question.go and record.go,
-- Dns.Validate validate.go and rcode.go, Dns.Extract extract.go, Dns.Tcp tcp.go, Dns.Lookup
-- lookup.go. Every function keeps its name, in snake_case. The loop of `decodeName` runs on fuel: each
-- label makes the name longer, up to 255, and there are at most `max_name_jumps` jumps, so the fuel
-- is enough. The context, the clock, the random source, the UDP socket and the TCP network are
-- scripts of what their calls return, in the order of the calls; a script that runs out makes the
-- call `stuck`.
--
-- Udp models udp/protocol: Udp.Message protocol.go, Udp.Handler server/handler.go and the loop of
-- server/main.go, Udp.Client the loop of client/main.go. The map of processed requests is an
-- association list. encoding/json is the parameter `Json`, of which it is assumed that `Unmarshal`
-- restores what `Marshal` wrote of a struct whose strings are valid UTF-8. The clock's text comes
-- with the packet. Udp.Handler.Map, Answers and Cache are about the map; Udp.Handler.Refinement
-- describes what the server sends without it.
--
-- Protocol models protocol/protocol.go (Protocol.Message and Protocol.Frame) and
-- tcp/protocol/server/main.go (`dispatch` in Protocol.Message, `handleConnection` in
-- Protocol.Server). encoding/json is the parameter `Codec`, with the same assumption, and the texts
-- of the errors are the parameter `error_text`. `int` is ℤ with 64 bits. The rounds of the connection
-- are a list of turns, each with the result of `SetReadDeadline` and the time.
--
-- Http models internal/rawhttp: Http.Reader the reader of framing.go and its `readBytes` and
-- `readChunkLine`, Http.Body its `readBody` and `readChunkedBody`, Http.Parser `readRequest` of
-- parser.go, Http.Syntax the tests on a request of parser.go and request.go and `route`,
-- Http.Server response.go and `HandleConnection`. Http.Reader.Progress, Lines and Behaves say what
-- a call takes off the connection and when it blocks, which Http.Body.Rounds and Chunks use for the
-- grammar of chunked bodies, Http.Parser.Progress for requests, and Http.Server.Answers for whole
-- connections; Http.Parser.Says is about what the lines of a head say. A connection is a list of events, bytes with an error that may come with the last of
-- them, so that an error that accompanies bytes is in the model. The loops that read run on fuel
-- above `supply`, which counts the bytes and the events that are left: every call of `Read` takes
-- some. `make` panics beyond the parameter `max_alloc`. The map of headers is an association list.
-- `strings.ToLower` and `strings.EqualFold` are exact as far as their results are compared with
-- texts in ASCII.
--
-- Load models the programs of load/ that decide something. Load.Queue is
-- load/backpressure/queue/server/main.go and Load.Admission
-- load/protection/connections/server/main.go, as step relations, whose steps are the atomic operations
-- of the goroutines, with the states that can be reached. In Load.Queue the handlers are numbered; in
-- Load.Admission the state counts them by the point where they stand. Load.Work is
-- load/concurrency/server/main.go, with SHA-256 as a parameter. Load.Latency is `latencyStats` and
-- Load.Clients the loop of each client and the report of load/backpressure/queue/client/main.go and
-- load/concurrency/client/main.go; Load.Clients.Waves is the loops of
-- load/protection/connections/client/main.go and load/resources/connections/client/main.go. What the
-- network and the clock answer is a script; a duration is not negative, as Go takes it from the
-- monotonic clock, and the sum of the latencies is a `time.Duration` with its 64 bits.
--
-- Grpc models grpc/fundamentals: Grpc.Service has the messages of the service, Grpc.Server the handlers
-- and Grpc.Interceptors the interceptors of server/main.go, Grpc.Client the functions of client/main.go.
-- The package google.golang.org/grpc is not modelled: what a stream, a timer or a context does is a
-- script, and the chaining of the interceptors is a parameter with the law that its documentation
-- states.
--
-- Not modelled: prints and logs, the loops that accept connections and dial, the command line, the
-- texts of errors, and generated code. The echo programs, tcp/framing, the client in tcp/protocol, the
-- command for lookups, the clock and the server in load/resources only pass data on or print it. The
-- TLS, HTTPS, HTTP/2 and WebSocket programs configure packages and call them.
pub mod Base
pub mod Dns
pub mod Udp
pub mod Protocol
pub mod Grpc
pub mod Http
pub mod Load
