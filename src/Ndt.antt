-- ===== src/Ndt.antt =====
-- container/ndt/config.go: the configuration of the Name Dispatch Table, and the sampling mask that
-- replica.go sets from it. A clamped int is a natural number.
pub mod Sampling
use containernet_ndn_dpdk.Shared.{ℕ, ◌^◌, min, max, if◌then◌else◌, ◌>>=◌}
use containernet_ndn_dpdk.Shared.Int.{ℤ, pos, pos_part}
use containernet_ndn_dpdk.Name.Component.{is_zero}

pub record Config : Type 0 where
  pub prefix_len : ℤ
  pub capacity : ℤ
  pub sample_interval : ℤ

abbrev pub min_prefix_len : ℕ
min_prefix_len = 1

-- ndni.PNameCachedComponents
abbrev pub max_prefix_len : ℕ
max_prefix_len = 17

abbrev pub default_prefix_len : ℕ
default_prefix_len = 2

abbrev pub min_capacity : ℕ
min_capacity = 2 ^ 4

abbrev pub max_capacity : ℕ
max_capacity = 2 ^ 60

abbrev pub default_capacity : ℕ
default_capacity = 2 ^ 16

abbrev pub min_sample_interval : ℕ
min_sample_interval = 1

abbrev pub max_sample_interval : ℕ
max_sample_interval = 2 ^ 30

abbrev pub default_sample_interval : ℕ
default_sample_interval = 2 ^ 10

-- `math.MinInt(math.MaxInt(low, x), high)`
pub clamp : ℕ → ℕ → ℤ → ℕ
clamp low high x = min (max low (pos_part x)) high

-- The prefix length after its default and its clamping.
pub effective_prefix_len : Config → ℕ
effective_prefix_len c =
    if is_zero c.prefix_len
    then default_prefix_len
    else clamp min_prefix_len max_prefix_len c.prefix_len

unfoldable pub clamped_capacity : Config → ℕ
clamped_capacity c =
    if is_zero c.capacity then default_capacity else clamp min_capacity max_capacity c.capacity

-- The clamping of the sample interval is from the prefix length, as in the code.
pub clamped_sample_interval : Config → ℕ
clamped_sample_interval c =
    if is_zero c.sample_interval
    then default_sample_interval
    else clamp min_sample_interval max_sample_interval (pos (effective_prefix_len c))

-- NextPowerOfTwo of github.com/jfoster/binary-utilities is a parameter.
module _ (next_power_of_two : ℕ → ℕ) where
  -- applyDefaults
  pub apply_defaults : Config → Config
  apply_defaults c = record {
    prefix_len = pos (effective_prefix_len c);
    capacity = pos (next_power_of_two (clamped_capacity c));
    sample_interval = pos (next_power_of_two (clamped_sample_interval c));
  }

-- `c.sampleMask` of newReplica.
pub sample_mask : Config → ℕ
sample_mask c = pos_part c.sample_interval
