-- ===== src/Tests/Segments.antt =====
-- ndn/segmented on three segments that arrive in reverse.
use containernet_ndn_dpdk.Shared.{
  ℕ, zero, suc, ◌+◌, ◌≤◌, ◌<◌, ◌≡◌, refl, inl, inr, some, List, [], ◌∷◌, arith, length,
}
use containernet_ndn_dpdk.Shared.Int.{◌+ℤ◌}
use containernet_ndn_dpdk.Shared.Assoc.{lookup, insert, delete}
use containernet_ndn_dpdk.Tlv.Nni
use containernet_ndn_dpdk.Name.{Name, get}
use containernet_ndn_dpdk.Segmented.{Data, extract_segment, ordered, receive, receive_all, flush}
use containernet_ndn_dpdk.Segmented.Order.{InOrder, ordered-InOrder}
use containernet_ndn_dpdk.Segmented.Complete.{AllArrive, IsSmallSegment, ordered_complete}

abbrev object : Name
object = record { typ = 8; value = 65 ∷ [] } ∷ []

abbrev segment : ℕ → Data
segment seg = record {
  name = record { typ = 8; value = 65 ∷ [] } ∷ record { typ = 0x32; value = seg ∷ [] } ∷ [];
  content = seg ∷ seg ∷ [];
}

abbrev reversed : List Data
reversed = segment 2 ∷ segment 1 ∷ segment 0 ∷ []

segment_of : (seg : ℕ) → extract_segment (segment seg).name 1 ≡ some seg
unfolding extract_segment get ◌+ℤ◌ Nni.unmarshal_binary
segment_of seg = refl

ordered-reversed : ordered 1 0 reversed ≡ (segment 0 ∷ segment 1 ∷ segment 2 ∷ [], 0)
unfolding ordered receive_all receive flush lookup insert delete extract_segment get ◌+ℤ◌
    Nni.unmarshal_binary
ordered-reversed = refl

ordered-InOrder_example : InOrder 1 0 (ordered 1 0 reversed).0
ordered-InOrder_example = ordered-InOrder 1 0 reversed

small_segment : (seg : ℕ) → seg < 3 → IsSmallSegment 1 (segment seg)
small_segment seg h k e = ground (arith, h, e, segment_of seg)

all_arrive : AllArrive 1 0 3 reversed
all_arrive zero h k = inr (inr (inl (segment_of 0)))
all_arrive (suc zero) h k = inr (inl (segment_of 1))
all_arrive (suc (suc zero)) h k = inl (segment_of 2)
all_arrive (suc (suc (suc seg))) h k = absurd (omega arith)

ordered_complete_example : 3 ≤ 0 + length (ordered 1 0 reversed).0
ordered_complete_example =
    ordered_complete 1 0 3 reversed (omega arith)
      (
        small_segment 2 (omega arith),
        (small_segment 1 (omega arith), (small_segment 0 (omega arith), tt)),
      )
      all_arrive
