-- ===== src/KBucket/Bucket/Tests.antt =====
-- The bucket (src/kbucket/bucket.rs) at concrete inputs.
use discv.KBucket.Bucket.Values.{SetsValue, SetsPending, remove-Applies, update_value-SetsValue}
use discv.KBucket.Bucket.Statuses.{UpdatesStatus, update_status-UpdatesStatus}
use discv.KBucket.Bucket.Applies.{apply_pending-Applies}
use discv.KBucket.Bucket.Apply.{Applies}
use discv.KBucket.Bucket.Contract.{insert-IsValid, insert-Inserts}
use discv.KBucket.Bucket.Inserts.{Inserts}
use discv.KBucket.Bucket.Valid.{IsValid, without}
use discv.KBucket.Bucket.Order.{first_connected, is_ordered}
use discv.Prelude.{
  ℕ, ◌≡◌, refl, true, false, some, Option, Bool, ◌∷◌, ◌*◌, [], ◌>>=◌, leb, none, get_elem?, arith,
  ◌⊎◌,
}
use discv.Prelude.Eq.{Eq, nat_Eq}
use discv.KBucket.Node.{
  Node, InsertResult, AppliedPending, UpdateResult, NodeStatus, outgoing, incoming, disconnected,
  connected,
}
use discv.ArrayVec.{ArrayVec, list_vec}
use discv.KBucket.Bucket.{
  KBucket, insert, max_nodes_per_bucket, NodeStatus, disconnected, connected, incoming_count,
  position,
}
use discv.KBucket.Bucket.Update.{remove, apply_pending, update_status, update_value}
use mathlib.Core.Option

instance abbrev node_vec : ArrayVec max_nodes_per_bucket (Node ℕ ℕ)
node_vec = list_vec max_nodes_per_bucket (Node ℕ ℕ)

instance abbrev value_Eq : Eq ℕ
value_Eq = nat_Eq

abbrev down : NodeStatus
down = record { direction = outgoing; state = disconnected }

abbrev up : NodeStatus
up = record { direction = incoming; state = connected }

abbrev node_of : ℕ → NodeStatus → Node ℕ ℕ
node_of k s = record { key = record { preimage = k; hash = k }; value = 10 * k; status = s }

-- Node 1 is disconnected, node 2 connected; node 3 waits and is ready at instant 50.
abbrev pair : KBucket ℕ ℕ
pair = record {
  nodes = node_of 1 down ∷ node_of 2 up ∷ [];
  first_connected_pos = some 1;
  pending = some (record { node = node_of 3 up; replace = 50 });
  pending_timeout = 60;
  filter = some (λ v vs. leb v 1000);
  max_incoming = 2;
}

pair-IsValid : IsValid pair
unfolding first_connected is_ordered incoming_count
pair-IsValid = record {
  settled = record {
    first = refl;
    ordered = refl;
    incoming = omega arith;
    bounded = omega arith;
    unique = omega arith;
  };
  apart = omega arith;
}

insert_runs :
    Option.map
      (λ (r : KBucket ℕ ℕ × InsertResult ℕ). (r.0).first_connected_pos)
      (insert 0 (node_of 4 down) pair)
    ≡ some (some 2)
unfolding insert
insert_runs = refl

apply_runs :
    (apply_pending 50 pair >>= λ r. r.1)
    ≡ some (record { inserted = record { preimage = 3; hash = 3 }; evicted = none })
unfolding apply_pending
apply_runs = refl

insert-IsValid_example :
    (r : KBucket ℕ ℕ × InsertResult ℕ) × (insert 0 (node_of 4 down) pair ≡ some r) × IsValid r.0
insert-IsValid_example = insert-IsValid 0 (node_of 4 down) pair pair-IsValid

insert-Inserts_example :
    (r : KBucket ℕ ℕ × InsertResult ℕ) × (insert 0 (node_of 4 down) pair ≡ some r)
    × Inserts 0 (node_of 4 down) pair r
insert-Inserts_example = insert-Inserts 0 (node_of 4 down) pair pair-IsValid

apply_pending-Applies_example :
    (u : KBucket ℕ ℕ × Option (AppliedPending ℕ ℕ)) × (apply_pending 50 pair ≡ some u)
    × IsValid u.0
    × Applies 50 pair u
apply_pending-Applies_example = apply_pending-Applies 50 pair pair-IsValid

update_status-UpdatesStatus_example :
    (u : KBucket ℕ ℕ × UpdateResult) × (update_status 0
        (record { preimage = 1; hash = 1 })
        connected
        none
        pair
      ≡ some u)
    × IsValid u.0
    × UpdatesStatus (record { preimage = 1; hash = 1 }) connected none pair u
update_status-UpdatesStatus_example =
    update_status-UpdatesStatus 0 (record { preimage = 1; hash = 1 }) connected none pair
      pair-IsValid

update_value-SetsValue_example :
    (u : KBucket ℕ ℕ × UpdateResult) × (update_value (record { preimage = 2; hash = 2 }) 2000 pair
      ≡ some u)
    × IsValid u.0
    × (((pos : ℕ) × (x : Node ℕ ℕ) × (get_elem? pair.nodes pos ≡ some x)
          × (x.key.hash ≡ 2)
          × SetsValue pos x 2000 pair u)
        ⊎ ((position pair (record { preimage = 2; hash = 2 }) ≡ none)
            × SetsPending (record { preimage = 2; hash = 2 }) 2000 pair u))
update_value-SetsValue_example =
    update_value-SetsValue (record { preimage = 2; hash = 2 }) 2000 pair pair-IsValid

remove-Applies_example :
    (u : KBucket ℕ ℕ × Bool) × (remove 50 (record { preimage = 1; hash = 1 }) pair ≡ some u)
    × IsValid u.0
    × (((pos : ℕ) × (x : Node ℕ ℕ) × (get_elem? pair.nodes pos ≡ some x)
          × (x.key.hash ≡ 1)
          × (u.1 ≡ true)
          × ((a : Option (AppliedPending ℕ ℕ)) × Applies 50 (without pos pair) (u.0, a)))
        ⊎ ((position pair (record { preimage = 1; hash = 1 }) ≡ none) × (u ≡ (pair, false))))
remove-Applies_example = remove-Applies 50 (record { preimage = 1; hash = 1 }) pair pair-IsValid
