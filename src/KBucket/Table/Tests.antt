-- ===== src/KBucket/Table/Tests.antt =====
-- The routing table (src/kbucket.rs) at concrete inputs.
use discv.KBucket.Table.{
  KBucketsTable, TableInsertResult, new_table, update_node_status, remove_node, insert_or_update,
  passes_table_filter, bucket_index,
}
use discv.KBucket.Table.Reachable.{Reachable, Reachable-IsPlaced}
use discv.KBucket.Table.Placement.{IsPlaced}
use discv.KBucket.Table.Index.{bucket_index_bounds}
use discv.KBucket.Table.Valid.{IsTable, Runs, new_table-IsTable, All-set}
use discv.KBucket.Table.Operations.{Removes, update_node_status-Runs, remove_node-Runs}
use discv.KBucket.Table.Entering.{Enters}
use discv.KBucket.Table.Updates.{insert_or_update-Runs}
use discv.KBucket.Bucket.Valid
use discv.KBucket.Bucket.Statuses.{UpdatesStatus}
use discv.KBucket.Bucket.{KBucket, max_nodes_per_bucket, incoming_count}
use discv.KBucket.Bucket.Order.{first_connected, is_ordered}
use discv.KBucket.Node.{
  Node, NodeStatus, UpdateResult, FailureReason, Filter, incoming, outgoing, connected,
  disconnected,
}
use discv.KBucket.Key.{Key}
use discv.ArrayVec.{ArrayVec, list_vec}
use discv.Prelude.Eq.{Eq, nat_Eq}
use discv.Uint.{Uint, word_uint}
use discv.Prelude.{
  refl, ℕ, Option, arith, none, ◌≡◌, ◌*◌, some, set, length-set, ◌⊎◌, [], Bool, ◌∷◌, leb, ◌∙◌, ◌<◌,
  false, ◌^◌, ◌≤◌, ◌+◌,
}

instance abbrev node_vec : ArrayVec max_nodes_per_bucket (Node ℕ ℕ)
node_vec = list_vec max_nodes_per_bucket (Node ℕ ℕ)

instance abbrev value_Eq : Eq ℕ
value_Eq = nat_Eq

instance abbrev uint : Uint
uint = word_uint

abbrev key_of : ℕ → Key ℕ
key_of k = record { preimage = k; hash = k }

abbrev node_of : ℕ → NodeStatus → Node ℕ ℕ
node_of k s = record { key = key_of k; value = 10 * k; status = s }

abbrev down : NodeStatus
down = record { direction = outgoing; state = disconnected }

abbrev up : NodeStatus
up = record { direction = incoming; state = connected }

-- The values below 1000 pass.
abbrev filter : Option (Filter ℕ)
filter = some (λ v vs. leb v 1000)

abbrev empty : KBucketsTable ℕ ℕ
empty = new_table (key_of 0) 60 2 filter none

-- The bucket of the distances 2 and 3.
abbrev pair : KBucket ℕ ℕ
pair = record {
  nodes = node_of 2 down ∷ node_of 3 up ∷ [];
  first_connected_pos = some 1;
  pending = none;
  pending_timeout = 60;
  filter = none;
  max_incoming = 2;
}

pair-IsValid : Valid.IsValid pair
unfolding first_connected is_ordered incoming_count
pair-IsValid = record {
  settled = record {
    first = refl;
    ordered = refl;
    incoming = omega arith;
    bounded = omega arith;
    unique = omega arith;
  };
  apart = tt;
}

abbrev two_nodes : KBucketsTable ℕ ℕ
two_nodes = record empty { buckets = set empty.buckets 1 pair }

two_nodes-IsTable : IsTable two_nodes
two_nodes-IsTable =
    let e = (new_table-IsTable (key_of 0) 60 2 filter none (omega arith)).0 in
    record {
      count = length-set empty.buckets 1 pair ∙ e.count;
      each =
          All-set (λ (b : KBucket ℕ ℕ). Valid.IsValid b) empty.buckets 1 pair pair-IsValid e.each;
      hash = e.hash;
    }

bucket_index_bounds_example :
    ((bucket_index 5 ≡ none) × (◌≡◌ {A = ℕ} 5 0))
    ⊎ ((i : ℕ) × (bucket_index 5 ≡ some i) × (i < 256) × (2 ^ i ≤ 5) × (5 < 2 ^ (i + 1)))
bucket_index_bounds_example = bucket_index_bounds 5 (omega arith)

update_node_status-Runs_example :
    (r : KBucketsTable ℕ ℕ × UpdateResult) × (update_node_status 5 6
        (key_of 2)
        connected
        none
        two_nodes
      ≡ some r)
    × IsTable r.0
    × Runs 5
        (key_of 2)
        UpdateResult.not_modified
        (UpdatesStatus (key_of 2) connected none)
        two_nodes
        r
update_node_status-Runs_example =
    update_node_status-Runs 5 6 (key_of 2) connected none two_nodes (omega arith) two_nodes-IsTable

remove_node-Runs_example :
    (r : KBucketsTable ℕ ℕ × Bool) × (remove_node 5 6 (key_of 3) two_nodes ≡ some r)
    × IsTable r.0
    × Runs 5 (key_of 3) false (Removes 6 (key_of 3)) two_nodes r
remove_node-Runs_example = remove_node-Runs 5 6 (key_of 3) two_nodes (omega arith) two_nodes-IsTable

-- What inserting a node into the empty table gives.
abbrev entered :
    (r : KBucketsTable ℕ ℕ × TableInsertResult ℕ) × (passed : Bool) × (passes_table_filter
        (key_of 3)
        70
        empty
      ≡ some passed)
    × (insert_or_update 5 6 (key_of 3) 70 down empty ≡ some r)
    × IsTable r.0
    × Runs 5
        (key_of 3)
        (TableInsertResult.failed FailureReason.invalid_self_update)
        (Enters passed 6 (key_of 3) 70 down)
        empty
        r
entered =
    insert_or_update-Runs 5 6 (key_of 3) 70 down empty (omega arith)
      (new_table-IsTable (key_of 0) 60 2 filter none (omega arith)).0

abbrev entered-Reachable : Reachable entered.0.0
entered-Reachable =
    Reachable.node_entered 5 6 (key_of 3) 70 down empty entered.0.0 entered.0.1
      (Reachable.created (key_of 0) 60 2 filter none (omega arith)) (omega arith) entered.3

Reachable-IsPlaced_example : IsTable entered.0.0 × IsPlaced entered.0.0
Reachable-IsPlaced_example = Reachable-IsPlaced entered.0.0 entered-Reachable
