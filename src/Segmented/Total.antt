-- ===== src/Segmented/Total.antt =====
-- ndn/segmented/fetch.go: EstimatedTotal.
use containernet_ndn_dpdk.Shared.{
  ℕ, suc, ◌+◌, ◌-◌, ◌%◌, ◌^◌, ◌≤◌, ◌<◌, min, ◌≡◌, false, some, arith, ◌==◌, lt→ltb,
}
use containernet_ndn_dpdk.Shared.Int.{pos, to_int}
use containernet_ndn_dpdk.Tlv.Encode.{max_u64}
use containernet_ndn_dpdk.Segmented.{estimated_total, incr}

to_int-small : (x : ℕ) → x < 2 ^ 63 → to_int x ≡ pos x
to_int-small x h = rw (lt→ltb x (2 ^ 63) h)

lt_ne : (a b : ℕ) → a < b → (a == b) ≡ false
lt_ne a b h = ground arith

-- With the default SegmentEnd and a FinalBlock of at least SegmentBegin that is below 2 ^ 62,
-- EstimatedTotal is one more than the number of the segments from SegmentBegin to the FinalBlock.
pub estimated_total_over :
    (segment_begin final_seg : ℕ)
    → segment_begin ≤ final_seg
    → final_seg < 2 ^ 62
    → estimated_total segment_begin 0 (some final_seg) ≡ pos (suc (suc final_seg - segment_begin))
unfolding estimated_total
estimated_total_over segment_begin final_seg h k =
    let last : min max_u64 (incr final_seg) ≡ suc final_seg = omega arith in
    let early : (suc final_seg == max_u64) ≡ false = lt_ne (suc final_seg) max_u64 (omega arith) in
    let wrapped : (suc final_seg + (2 ^ 64 - segment_begin) + 1) % 2 ^ 64
        ≡ suc (suc final_seg - segment_begin) =
      omega arith in
    rw (last, early, wrapped) (to_int-small _ (omega arith))
