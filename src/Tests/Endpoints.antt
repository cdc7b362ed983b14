-- ===== src/Tests/Endpoints.antt =====
-- ndn/endpoint and ndn/segmented/serve.go: a consumer, a producer and an object of five bytes.
use containernet_ndn_dpdk.Shared.{
  ℕ, zero, suc, ◌+◌, ◌^◌, ◌≤◌, ◌<◌, ◌≡◌, refl, true, none, some, List, [], ◌∷◌, arith, leb,
  if◌then◌else◌, le→leb, length, take, drop, Result, ok,
}
use containernet_ndn_dpdk.Name.Order.{is_prefix_of_iff}
use containernet_ndn_dpdk.Shared.Int.{◌+ℤ◌, pos, negsuc}
use containernet_ndn_dpdk.Name.{get, is_prefix_of}
use containernet_ndn_dpdk.Lp.{LpL3}
use containernet_ndn_dpdk.Data.{Data}
use containernet_ndn_dpdk.Data.Checks.{can_satisfy}
use containernet_ndn_dpdk.Packet.{no_packet}
use containernet_ndn_dpdk.Endpoint.Consumer.{
  timed_out, Attempt, taken, found, stopped, Consumed, consumed, first_data, once, consume_loop,
  consume,
}
use containernet_ndn_dpdk.Endpoint.Producer.{made, ProducerOptions}
use containernet_ndn_dpdk.Endpoint.Retx.{consume_ends, consume_finds}
use containernet_ndn_dpdk.Segmented.Serve.{Source, ServeOptions, no_error, eof, read_error}
use containernet_ndn_dpdk.Segmented.Contents.{
  HoldsObject, contents, contents_whole, serve, content_of, serve_wraps,
}
use containernet_ndn_dpdk.Tests.Packets.{first_byte, a_name, some_data, for_prefix}

-- The first try brings nothing, and the second one a Data.
abbrev second_try : ℕ → Attempt
second_try zero = taken [] timed_out
second_try (suc k) = taken (record no_packet { data_in = some some_data } ∷ []) timed_out

abbrev accept_all_data : Data → Result (Unit {0})
accept_all_data d = ok tt

under : is_prefix_of a_name a_name ≡ true
under = (is_prefix_of_iff a_name a_name).1 ([], refl)

satisfied : can_satisfy first_byte some_data for_prefix ≡ true
unfolding can_satisfy get ◌+ℤ◌
satisfied = under

found_second : once first_byte for_prefix (second_try 1) ≡ found some_data
unfolding once first_data
found_second = rw (satisfied, once) refl

consume_ends_example :
    (o : Consumed) × (n : ℕ) × (consume first_byte for_prefix
        (pos 2)
        (λ k. 7)
        accept_all_data
        second_try
        3
      ≡ some (o, n))
    × (n ≤ 3)
consume_ends_example =
    consume_ends first_byte for_prefix (pos 2) (λ k. 7) accept_all_data second_try

first_fails : (j : ℕ) → j < 1 → once first_byte for_prefix (second_try j) ≡ stopped timed_out
unfolding once first_data
first_fails zero before = refl
first_fails (suc j) before = absurd (omega (arith, before))

consume_finds_example :
    (n : ℕ) × (consume first_byte for_prefix (pos 2) (λ k. 7) accept_all_data second_try 3
      ≡ some (consumed some_data, n))
consume_finds_example =
    consume_finds first_byte for_prefix (pos 2) (λ k. 7) accept_all_data second_try 1 some_data
      (omega arith) (λ j before. (first_fails j before, omega arith)) found_second refl

ran :
    consume first_byte for_prefix (pos 2) (λ k. 7) accept_all_data second_try 3
    ≡ some (consumed some_data, 2)
unfolding consume_loop once first_data
ran = rw (satisfied, consume_loop) refl

abbrev options : ProducerOptions
options = record { prefix = a_name; handler = λ i. made some_data; data_signer = none }

abbrev marked : LpL3
marked = record { pit_token = 9 ∷ []; nack_reason = 0; cong_mark = 1 }

abbrev object : List ℕ
object = 1 ∷ 2 ∷ 3 ∷ 4 ∷ 5 ∷ []

abbrev source : Source
source = record {
  read_at = λ n o. elim o [
    | pos k ↦ (take n (drop k object), if leb (length object) k then eof else no_error)
    | negsuc k ↦ ([], read_error)
  ];
  size = some 5;
}

source-HoldsObject : HoldsObject object source
source-HoldsObject = record {
  reads = λ n o. refl;
  ends = λ n o behind. rw (le→leb 5 o behind) refl;
}

abbrev serve_options : ServeOptions
serve_options = record { content_type = 0; freshness = pos 0; chunk_size = 2 }

contents_whole_example :
    contents serve_options source a_name object source-HoldsObject (omega arith) 3 ≡ object
contents_whole_example =
    contents_whole serve_options source a_name object source-HoldsObject (omega arith) 3
      (omega arith) (omega arith) (omega arith)

serve_wraps_example :
    content_of (serve serve_options source a_name (2 ^ 63 + 1))
    ≡ content_of (serve serve_options source a_name 1)
serve_wraps_example =
    serve_wraps serve_options source a_name object source-HoldsObject (omega arith) 1 (2 ^ 63 + 1)
      (omega arith) (omega arith) (omega arith) (omega arith)
