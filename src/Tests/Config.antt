-- ===== src/Tests/Config.antt =====
-- container/ndt on a configuration with a sample interval of 512, and FIB entries.
use containernet_ndn_dpdk.Shared.{ℕ, ◌≤◌, ◌≡◌, refl, [], ◌∷◌, ◌==◌, if◌then◌else◌}
use containernet_ndn_dpdk.Shared.Int.{pos, pos_part}
use containernet_ndn_dpdk.FibDef.{EntryBody}
use containernet_ndn_dpdk.Ndt.{Config, apply_defaults, sample_mask}
use containernet_ndn_dpdk.Ndt.Sampling.{sample_interval_from_prefix_len}

abbrev two_hops : EntryBody
two_hops = record { nexthops = 5 ∷ 6 ∷ []; strategy = 1 }

abbrev swapped_hops : EntryBody
swapped_hops = record { nexthops = 6 ∷ 5 ∷ []; strategy = 1 }

abbrev every_512 : Config
every_512 = record { prefix_len = pos 3; capacity = pos 0; sample_interval = pos 512 }

-- Rounding up for numbers up to 4, and the identity above.
abbrev round_up : ℕ → ℕ
round_up n = if n == 3 then 4 else n

sample_interval_from_prefix_len_example :
    (sample_mask (apply_defaults round_up every_512)
      ≡ round_up (pos_part (apply_defaults round_up every_512).prefix_len))
    × (1 ≤ pos_part (apply_defaults round_up every_512).prefix_len)
    × (pos_part (apply_defaults round_up every_512).prefix_len ≤ 17)
sample_interval_from_prefix_len_example = sample_interval_from_prefix_len round_up every_512 refl
