-- ===== src/Udp/Handler.antt =====
-- udp/protocol/server/handler.go, and the loop of udp/protocol/server/main.go. The map of processed
-- requests is an association list; the clock is the text that `now().Format(time.RFC3339)` gives.
pub mod Answers
pub mod Map
pub mod Cache
pub mod Refinement
use go_network_lab.Base.{
  ℕ, Bool, true, false, ◌&&◌, List, [], ◌∷◌, ◌++◌, Option, none, some, Bytes, take, codes, bytes_eq,
  ◌==◌, if◌then◌else◌, Outcome, ok, err, panic, stuck,
}
use go_network_lab.Udp.Message.{
  Request, Response, Json, DecodeError, decode_request, encode_response,
}

pub record RequestKey : Type 0 where
  pub addr : Bytes
  pub id : ℕ

abbrev pub same_key : RequestKey → RequestKey → Bool
same_key a b = bytes_eq a.addr b.addr && a.id == b.id

abbrev pub Processed : Type 0
Processed = List (RequestKey × Response)

-- `h.processed[key]`
unfoldable pub lookup : RequestKey → Processed → Option Response
lookup k [] = none
lookup k ((j, r) ∷ m) = if same_key j k then some r else lookup k m

-- `h.processed[key] = response`
unfoldable pub insert : RequestKey → Response → Processed → Processed
insert k r [] = (k, r) ∷ []
insert k r ((j, s) ∷ m) = if same_key j k then (k, r) ∷ m else (j, s) ∷ insert k r m

-- The switch on the operation.
unfoldable pub respond : Request → Bytes → Response
respond req now =
    if bytes_eq req.operation (codes "TIME")
    then record { id = req.id; status = codes "OK"; payload = now }
    else record { id = req.id; status = codes "ERROR"; payload = codes "unknown operation" }

-- What `handle` does past the decoding: the map, the response, and whether it is a duplicate.
unfoldable pub handle_request : Processed → Bytes → Bytes → Request → Processed × Response × Bool
handle_request processed now addr req =
    let key : RequestKey = record { addr = addr; id = req.id } in
    let response = respond req now in
    elim (lookup key processed) [
      | some cached ↦ (processed, cached, true)
      | none ↦ (insert key response processed, response, false)
    ]

module _ (json : Json) where
  abbrev pub Handled : Type 0
  Handled = Outcome (DecodeError json.JsonError) (Response × Bool)

  unfoldable pub handle : Processed → Bytes → Bytes → Bytes → Processed × Handled
  handle processed now addr bytes = elim (decode_request json bytes) [
    | ok req ↦
        let (processed', response, duplicate) = handle_request processed now addr req in
        (processed', ok (response, duplicate))
    | err e ↦ (processed, err e)
    | panic ↦ (processed, panic)
    | stuck ↦ (processed, stuck)
  ]

  -- A packet that the server reads, with the time at which it is handled.
  pub record Packet : Type 0 where
    pub addr : Bytes
    pub bytes : Bytes
    pub now : Bytes

  -- One round of the server: the map behind it, and the datagram that it sends. What does not fit
  -- into the buffer is cut off.
  unfoldable pub serve_one : Processed → Packet → Processed × Option (Bytes × Bytes)
  serve_one processed p =
      let (processed', result) = handle processed p.now p.addr (take 1024 p.bytes) in
      (
        processed',
        elim result [ ok (response, _) ↦ some (p.addr, encode_response json response) | _ ↦ none ],
      )

  -- The server's loop over the packets that it reads.
  unfoldable pub serve : Processed → List Packet → Processed × List (Bytes × Bytes)
  serve processed [] = (processed, [])
  serve processed (p ∷ ps) =
      let (processed', sent) = serve_one processed p in
      let (last, later) = serve processed' ps in
      (last, elim sent [ some d ↦ d ∷ later | none ↦ later ])
