-- ===== src/Endpoint/Consumer.antt =====
-- ndn/endpoint/consumer.go and retx.go: Consume, which sends an Interest until a Data comes or the
-- retransmissions are used up. A try is what the face does from one call of `once` to its end.
use containernet_ndn_dpdk.Shared.{
  ℕ, zero, suc, ◌+◌, Bool, false, Option, none, some, List, [], ◌∷◌, ◌==◌, if◌then◌else◌, Error,
  Result, ok, err, panic,
}
use containernet_ndn_dpdk.Shared.Int.{ℤ, pos, leb_ℤ}
use containernet_ndn_dpdk.Interest.{Interest}
use containernet_ndn_dpdk.Data.{Data}
use containernet_ndn_dpdk.Data.Checks.{can_satisfy}
use containernet_ndn_dpdk.Packet.{Packet}

-- How the context of one try ends: its own time runs out, that of its parent does, or its parent is cancelled.
pub data End : Type 0 where
  timed_out parent_expired cancelled : End

-- What the face does in one try: it does not take the Interest before the end, or it takes it and brings
-- these packets before the end.
pub data Attempt : Type 0 where
  refused : End → Attempt
  taken : List Packet → End → Attempt

-- What `once` returns.
pub data Once : Type 0 where
  found : Data → Once
  stopped : End → Once

-- The errors of Consume besides those of the Verifier, and what it returns.
pub data ConsumeError : Type 0 where
  expire deadline_exceeded context_canceled : ConsumeError
  not_verified : Error → ConsumeError

pub data Consumed : Type 0 where
  consumed : Data → Consumed
  failed : ConsumeError → Consumed
  panicked : Consumed

-- The generator of RetxOptions.IntervalIterable with its `count`; the intervals, which are random and floating
-- point, are given by their index. A nil RetxPolicy is a limit of 0.
abbrev pub retx_next : ℤ → (ℕ → ℕ) → ℕ → ℕ × ℕ
retx_next limit interval count =
    if leb_ℤ limit (pos count) then (0, count) else (interval count, suc count)

-- consumer, with the number of tries and of Interests that the face has taken.
pub record Consumer : Type 0 where
  pub count : ℕ
  pub retx_end : Bool
  pub tries : ℕ
  pub sent : ℕ

module _ (sha256 : List ℕ → List ℕ) (interest : Interest) where
  -- The Data of a packet, if it satisfies the Interest.
  abbrev pub satisfying : Option Data → Option Data
  satisfying none = none
  satisfying (some d) = if can_satisfy sha256 d interest then some d else none

  -- The loop of `once` over the packets of the face.
  unfoldable pub first_data : List Packet → Option Data
  first_data [] = none
  first_data (pkt ∷ pkts) = elim (satisfying pkt.data_in) [
    | some d ↦ some d
    | none ↦ first_data pkts
  ]

  -- consumer.once behind the choice of the time.
  unfoldable pub once : Attempt → Once
  once (refused e) = stopped e
  once (taken pkts e) = elim (first_data pkts) [ some d ↦ found d | none ↦ stopped e ]

  module _ (limit : ℤ) (interval : ℕ → ℕ) (verify : Data → Result (Unit {0}))
      (env : ℕ → Attempt) where
    abbrev pub takes : Attempt → ℕ
    takes (refused e) = 0
    takes (taken pkts e) = 1

    -- The consumer behind a call of `once`.
    abbrev pub tried : Consumer → Consumer
    tried c =
        let (rto, count) = retx_next limit interval c.count in
        record {
          count = count;
          retx_end = rto == 0;
          tries = suc c.tries;
          sent = c.sent + takes (env c.tries);
        }

    abbrev pub checked : Data → Result (Unit {0}) → Consumed
    checked d (ok u) = consumed d
    checked d (err e) = failed (not_verified e)
    checked d panic = panicked

    -- The loop of Consume, with fuel: what it returns, and the number of Interests that were sent. A round
    -- without an end counts up to the limit, so fuel of one more than the limit is enough.
    unfoldable pub consume_loop : ℕ → Consumer → Option (Consumed × ℕ)
    consume_loop zero c = none
    consume_loop (suc fuel) c =
        let c' = tried c in
        let next = consume_loop fuel c' in
        elim (once (env c.tries)) [
          | found d ↦ some (checked d (verify d), c'.sent)
          | stopped timed_out ↦ if c'.retx_end then some (failed expire, c'.sent) else next
          | stopped parent_expired ↦ some (failed deadline_exceeded, c'.sent)
          | stopped cancelled ↦ some (failed context_canceled, c'.sent)
        ]

    abbrev pub new_consumer : Consumer
    new_consumer = record { count = 0; retx_end = false; tries = 0; sent = 0 }

    -- Consume, on a face that the forwarder has room for.
    abbrev pub consume : ℕ → Option (Consumed × ℕ)
    consume fuel = consume_loop fuel new_consumer
