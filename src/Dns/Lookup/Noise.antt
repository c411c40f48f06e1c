-- ===== src/Dns/Lookup/Noise.antt =====
-- Packets that do not answer the query are passed over.
use go_network_lab.Base.{
  ℕ, ◌≡◌, refl, ◌∙◌, inl, inr, false, List, [], ◌∷◌, ◌++◌, none, arith, Bytes, All, Bool-cases, ok,
}
use go_network_lab.Dns.Message.{Question, Message}
use go_network_lab.Dns.Decode.{decode_message}
use go_network_lab.Dns.Validate.Meaning.{Answers, validate_response_iff, validate_response-settles}
use go_network_lab.Dns.Tcp.{TcpNetwork}
use go_network_lab.Dns.Lookup.{
  skip, has_id, judge_message, judge_decoded, judge, datagram, Round, receive, lookup_loop,
}

-- A packet that is too short for an ID, has another ID, or decodes to a message that does not
-- answer the query.
pub data IsNoise (id : ℕ) (q : Question) (packet : Bytes) : Type 0 where
  foreign_id : has_id packet id ≡ false → IsNoise id q packet
  no_answer : (m : Message) → decode_message packet ≡ ok m → ¬ Answers m id q → IsNoise id q packet

-- A round that delivers such a packet while the context is valid.
pub record NoiseRound (id : ℕ) (q : Question) (r : Round) : Type 0 where
  pub packet : Bytes
  pub valid_before : r.context_before ≡ none
  pub delivers : r.received ≡ datagram packet
  pub valid_after : r.context_after ≡ none
  pub noise : IsNoise id q packet

module _ (tcp : TcpNetwork) (query : Bytes) (id : ℕ) (q : Question) where
  judge_message-skip : (m : Message) → ¬ Answers m id q → judge_message tcp query id q m ≡ skip
  unfolding judge_message
  judge_message-skip m n = elim (validate_response-settles m id q) [
    | inl valid ↦ absurd (n ((validate_response_iff m id q).0 valid))
    | inr (e, refused) ↦ rw (refused, judge_message)
  ]

  judge-IsNoise : (packet : Bytes) → IsNoise id q packet → judge tcp query id q packet ≡ skip
  unfolding judge judge_decoded
  judge-IsNoise packet (foreign_id e) = rw (e, judge)
  judge-IsNoise packet (no_answer m d n) = elim (Bool-cases (has_id packet id)) [
    | inr other ↦ rw (other, judge)
    | inl same ↦ rw (same, d, judge) (judge_message-skip m n)
  ]

  lookup_loop-NoiseRound :
      (r : Round) (rs : List Round)
      → NoiseRound id q r
      → lookup_loop tcp query id q (r ∷ rs) ≡ lookup_loop tcp query id q rs
  unfolding lookup_loop receive
  lookup_loop-NoiseRound r rs n =
      rw (n.valid_before, n.delivers, n.valid_after)
        (ground (arith, judge-IsNoise n.packet n.noise))

  -- Any number of such rounds changes nothing: the lookup goes on as if they had not been.
  pub lookup_loop-noise :
      (noise rs : List Round)
      → All (NoiseRound id q) noise
      → lookup_loop tcp query id q (noise ++ rs) ≡ lookup_loop tcp query id q rs
  lookup_loop-noise [] rs h = refl
  lookup_loop-noise (r ∷ noise) rs h =
      lookup_loop-NoiseRound r (noise ++ rs) h.0 ∙ lookup_loop-noise noise rs h.1
