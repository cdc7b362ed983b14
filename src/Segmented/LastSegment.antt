-- ===== src/Segmented/LastSegment.antt =====
-- ndn/segmented/serve.go: the number of the last segment.
use containernet_ndn_dpdk.Shared.{
  ℕ, ◌+◌, ◌-◌, ◌*◌, ◌/◌, ◌%◌, ◌^◌, ◌≤◌, ◌<◌, ◌≡◌, inl, inr, arith, ◌==◌, Bool-cases,
}
use native.Mathlib.Nat.{div-add-mod', mod-lt, div-le_self}
use containernet_ndn_dpdk.Segmented.Serve.{last_segment}
use containernet_ndn_dpdk.Segmented.Slices.{pred_times, pos_factor}

-- The number that Serve computes of the size of a source, which is not empty, is that of the last segment.
pub last_segment_lem :
    (size chunk : ℕ)
    → 0 < size
    → size < 2 ^ 63
    → 0 < chunk
    → (last_segment size chunk * chunk < size) × (size ≤ last_segment size chunk * chunk + chunk)
unfolding last_segment
last_segment_lem size chunk some_bytes small some_chunk =
    let q = size / chunk in
    let split : q * chunk + size % chunk ≡ size = div-add-mod' size chunk in
    let less : size % chunk < chunk = mod-lt size some_chunk in
    let q_small : q ≤ size = div-le_self size chunk in
    elim (Bool-cases (size % chunk == 0)) [
      | inl exact ↦
          let none_left : size % chunk ≡ 0 = ground (arith, exact) in
          let some_q : 0 < q = pos_factor q chunk (omega (arith, split, none_left, some_bytes)) in
          let last : (q + (2 ^ 64 - 1)) % 2 ^ 64 ≡ q - 1 = omega (arith, some_q, q_small, small) in
          let times = pred_times q chunk some_q in
          rw (exact, last)
            (
              omega (arith, split, none_left, times, some_chunk),
              omega (arith, split, none_left, times),
            )
      | inr rest ↦
          let some_left : 0 < size % chunk = ground (arith, rest) in
          let last : ((q + (2 ^ 64 - 1)) % 2 ^ 64 + 1) % 2 ^ 64 ≡ q =
            omega (arith, q_small, small) in
          rw (rest, last) (omega (arith, split, some_left), omega (arith, split, less))
    ]
