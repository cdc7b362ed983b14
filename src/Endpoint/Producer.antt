-- ===== src/Endpoint/Producer.antt =====
-- ndn/endpoint/producer.go: the replies of a producer.
use containernet_ndn_dpdk.Shared.{
  ℕ, Bool, true, not, Option, none, some, List, [], ◌∷◌, ◌==◌, if◌then◌else◌, Result, ok, err,
  panic, ◌>>=◌,
}
use containernet_ndn_dpdk.Name.{Name, is_prefix_of}
use containernet_ndn_dpdk.Lp.{LpL3}
use containernet_ndn_dpdk.SigInfo.{SigInfo, sig_null, Signer}
use containernet_ndn_dpdk.Interest.{Interest}
use containernet_ndn_dpdk.Data.{Data}
use containernet_ndn_dpdk.Data.Checks.{can_satisfy, sign_data}
use containernet_ndn_dpdk.Packet.{Packet, Nack, with_interest, with_reason, make_nack}

-- What a ProducerHandler returns: a Data, an error of ReplyNack, or another error.
pub data Handled : Type 0 where
  made : Data → Handled
  reply_nack : ℕ → Handled
  other_error : Handled

-- The Prefix, Handler and DataSigner of ProducerOptions.
pub record ProducerOptions : Type 0 where
  pub prefix : Name
  pub handler : Interest → Handled
  pub data_signer : Option Signer

-- The packet that is sent in reply.
pub data Reply : Type 0 where
  data_reply : LpL3 → Data → Reply
  nack_reply : LpL3 → Nack → Reply

abbrev pub is_unsigned : Option SigInfo → Bool
is_unsigned none = true
is_unsigned (some si) = si.sig_type == sig_null

abbrev pub signed_reply : LpL3 → Result Data → Result (Option Reply)
signed_reply lp (ok d) = ok (some (data_reply lp d))
signed_reply lp (err e) = ok none
signed_reply lp panic = panic

abbrev pub sign_reply : LpL3 → Data → Option Signer → Result (Option Reply)
sign_reply lp d none = ok (some (data_reply lp d))
sign_reply lp d (some signer) =
    if is_unsigned d.sig_info
    then signed_reply lp (sign_data d signer)
    else ok (some (data_reply lp d))

abbrev pub nack_of : Nack × LpL3 → Reply
nack_of (n, lp) = nack_reply lp n

module _ (sha256 : List ℕ → List ℕ) where
  abbrev pub reply_of : ProducerOptions → LpL3 → Interest → Handled → Result (Option Reply)
  reply_of p lp i other_error = ok none
  reply_of p lp i (reply_nack reason) =
      ok (some (nack_of (make_nack (with_interest i (some lp) ∷ with_reason reason ∷ []))))
  reply_of p lp i (made d) =
      if can_satisfy sha256 d i then sign_reply lp d p.data_signer else ok none

  -- handleInterest, on a packet with this header and Interest.
  unfoldable pub handle_interest : ProducerOptions → LpL3 → Interest → Result (Option Reply)
  handle_interest p lp i =
      if not (is_prefix_of p.prefix i.name) then ok none else reply_of p lp i (p.handler i)

  abbrev pub put_reply : Option Reply → List Reply → List Reply
  put_reply none replies = replies
  put_reply (some r) replies = r ∷ replies

  -- The loop of the producer, with the replies in the order of the packets; a packet without an Interest is
  -- passed over.
  pub producer_loop : ProducerOptions → List Packet → Result (List Reply)
  producer_loop p [] = ok []
  producer_loop p (pkt ∷ pkts) = elim pkt.interest_in [
    | none ↦ producer_loop p pkts
    | some i ↦
        handle_interest p pkt.lp i >>= λ r. producer_loop p pkts >>= λ rs. ok (put_reply r rs)
  ]
