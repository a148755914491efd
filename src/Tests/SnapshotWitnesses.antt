-- ===== src/Tests/SnapshotWitnesses.antt =====
-- A snapshot of two nodes with an edge each way, and what the accessor reads of it.
use orpheusgraph.Prelude.{
  ℕ, ◌≡◌, refl, String, none, some, List, [], ◌∷◌, ◌==◌, string_eq, if◌then◌else◌,
}
use orpheusgraph.Persist.Error.{ok}
use orpheusgraph.Persist.Snapshot.{
  CsrNode, CsrEdge, SerializableGraphV2, fnv1a, fnv1a_from, next_power_of_two, bucket_capacity,
  free_slot, fill_buckets, build_name_buckets, probe, idx_of, empty_bucket,
}
use orpheusgraph.Persist.Snapshot.Buckets.{
  corrupt_csr, after, check_sorted, is_power_of_two, check_capacity, read_bucket, read_buckets,
  empties_on_path, check_reachable, check_buckets,
}
use orpheusgraph.Persist.Snapshot.Validate.{
  check_endpoints, check_rising, check_offsets, check_group, check_in_group, check_groups,
  check_mirror_from, check_mirror, validate_csr,
}
use orpheusgraph.Persist.Snapshot.Read.{IsRead, validate_csr-IsRead}
use orpheusgraph.Tests.Sample.{node}

abbrev letters : String → List ℕ
letters name = if name == "a" then 97 ∷ [] else 98 ∷ []

abbrev csr_node : String → CsrNode
csr_node name = record {
  name = name;
  kind = "model";
  metadata = [];
  base_weight = 7;
  noise_penalty = 0;
  pagerank_weight = 0;
}

abbrev csr_edge : ℕ → ℕ → CsrEdge
csr_edge from to = record {
  from_idx = from;
  to_idx = to;
  kind = "rel";
  field_name = none;
  base_weight = 1;
  valid_from = none;
  valid_to = none;
  acl = [];
}

table_run :
    build_name_buckets letters (node "a" ∷ node "b" ∷ []) ≡ 0 ∷ 1 ∷ empty_bucket ∷ empty_bucket ∷ []
unfolding build_name_buckets fill_buckets free_slot bucket_capacity next_power_of_two fnv1a
    fnv1a_from
table_run = refl

abbrev snapshot : SerializableGraphV2
snapshot = record {
  nodes = csr_node "a" ∷ csr_node "b" ∷ [];
  edges = csr_edge 0 1 ∷ csr_edge 1 0 ∷ [];
  node_offsets = 0 ∷ 1 ∷ 2 ∷ [];
  in_offsets = 0 ∷ 1 ∷ 2 ∷ [];
  in_mirror = 1 ∷ 0 ∷ [];
  name_buckets = 0 ∷ 1 ∷ empty_bucket ∷ empty_bucket ∷ [];
}

snapshot_valid : validate_csr {E = Unit} letters snapshot ≡ ok tt
unfolding validate_csr after check_sorted is_power_of_two check_capacity read_bucket read_buckets
    empties_on_path check_reachable check_buckets check_endpoints check_rising check_offsets
    check_group check_in_group check_groups check_mirror_from check_mirror bucket_capacity
    next_power_of_two fnv1a fnv1a_from
snapshot_valid = refl

b_found : idx_of letters snapshot "b" ≡ some 1
unfolding idx_of probe fnv1a fnv1a_from
b_found = refl

validate_csr-IsRead_example : IsRead Unit letters snapshot "b" 1
validate_csr-IsRead_example = validate_csr-IsRead Unit letters snapshot snapshot_valid "b" 1 b_found

-- An edge in the group of another node is noticed.
misplaced_run :
    validate_csr {E = Unit} letters (record snapshot { edges = csr_edge 1 1 ∷ csr_edge 1 0 ∷ [] })
    ≡ corrupt_csr "V2 CSR invalid: node_offsets group holds an edge of another node"
unfolding validate_csr after check_sorted is_power_of_two check_capacity read_bucket read_buckets
    empties_on_path check_reachable check_buckets check_endpoints check_rising check_offsets
    check_group check_in_group check_groups check_mirror_from check_mirror bucket_capacity
    next_power_of_two fnv1a fnv1a_from
misplaced_run = refl
