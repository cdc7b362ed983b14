-- ===== src/Ndt/Sampling.antt =====
-- container/ndt/config.go: what applyDefaults makes of the sample interval.
use containernet_ndn_dpdk.Shared.{ℕ, ◌≤◌, ◌≡◌, ap, false, arith}
use containernet_ndn_dpdk.Shared.Int.{pos_part}
use containernet_ndn_dpdk.Name.Component.{is_zero}
use containernet_ndn_dpdk.Ndt.{
  Config, clamp, effective_prefix_len, clamped_sample_interval, apply_defaults, sample_mask,
}

prefix_len_range : (c : Config) → (1 ≤ effective_prefix_len c) × (effective_prefix_len c ≤ 17)
unfolding effective_prefix_len clamp
prefix_len_range c = ground arith

clamped_interval_lem :
    (c : Config)
    → is_zero c.sample_interval ≡ false
    → clamped_sample_interval c ≡ effective_prefix_len c
unfolding clamped_sample_interval clamp
clamped_interval_lem c h = ground (arith, h, prefix_len_range c)

-- A sample interval other than 0 is not used: the effective one, and with it the mask of a replica, is
-- NextPowerOfTwo of the effective prefix length, which is between 1 and 17.
pub sample_interval_from_prefix_len :
    (next_power_of_two : ℕ → ℕ) (c : Config)
    → is_zero c.sample_interval ≡ false
    → (sample_mask (apply_defaults next_power_of_two c)
        ≡ next_power_of_two (pos_part (apply_defaults next_power_of_two c).prefix_len))
      × (1 ≤ pos_part (apply_defaults next_power_of_two c).prefix_len)
      × (pos_part (apply_defaults next_power_of_two c).prefix_len ≤ 17)
unfolding apply_defaults sample_mask
sample_interval_from_prefix_len next_power_of_two c h =
    let (low, high) = prefix_len_range c in
    (ap next_power_of_two (clamped_interval_lem c h), low, high)
