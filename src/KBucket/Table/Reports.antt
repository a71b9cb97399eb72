-- ===== src/KBucket/Table/Reports.antt =====
-- src/kbucket.rs: what `insert_or_update` and `update_node` report of the results of the bucket's
-- operations.
use discv.Prelude.{◌≡◌, ◌≢◌, false, true, some, refl}
use discv.KBucket.Table.{TableInsertResult, of_updates, join_updates, Key}
use discv.KBucket.Node.{UpdateResult, FailureReason, InsertResult, has_failed}

-- What the result of a bucket's `insert` of an absent key is reported as.
pub data ReportsInsert {ℓ} {T : Type ℓ} : InsertResult T → TableInsertResult T → Type ℓ where
  when_inserted : ReportsInsert InsertResult.inserted TableInsertResult.inserted
  when_pending : (k : Key T) → ReportsInsert (InsertResult.pending k) (TableInsertResult.pending k)
  when_full : ReportsInsert InsertResult.full (TableInsertResult.failed FailureReason.bucket_full)
  when_too_many :
      ReportsInsert InsertResult.too_many_incoming
        (TableInsertResult.failed FailureReason.too_many_incoming)
  when_filtered :
      ReportsInsert InsertResult.failed_filter
        (TableInsertResult.failed FailureReason.bucket_filter)

-- What the updates of a present key's value and of its status are reported as.
pub data ReportsUpdates {ℓ} {T : Type ℓ}
    : UpdateResult → UpdateResult → TableInsertResult T → Type ℓ where
  both : ReportsUpdates UpdateResult.updated UpdateResult.updated (TableInsertResult.updated false)
  both_promoted :
      ReportsUpdates UpdateResult.updated UpdateResult.updated_and_promoted
        (TableInsertResult.updated true)
  value_only :
      ReportsUpdates UpdateResult.updated UpdateResult.not_modified TableInsertResult.value_updated
  value_and_pending :
      ReportsUpdates UpdateResult.updated UpdateResult.updated_pending
        TableInsertResult.value_updated
  status_only :
      ReportsUpdates UpdateResult.not_modified UpdateResult.updated
        (TableInsertResult.status_updated false)
  status_promoted :
      ReportsUpdates UpdateResult.not_modified UpdateResult.updated_and_promoted
        (TableInsertResult.status_updated true)
  neither :
      ReportsUpdates UpdateResult.not_modified UpdateResult.not_modified
        (TableInsertResult.updated false)
  status_pending :
      ReportsUpdates UpdateResult.not_modified UpdateResult.updated_pending
        TableInsertResult.updated_pending
  pending_value :
      (s : UpdateResult)
      → ReportsUpdates UpdateResult.updated_pending s TableInsertResult.updated_pending
  failed_value :
      (e : FailureReason) (s : UpdateResult)
      → s ≢ UpdateResult.updated_pending
      → ReportsUpdates (UpdateResult.failed e) s (TableInsertResult.failed e)
  failed_and_pending :
      (e : FailureReason)
      → ReportsUpdates
          (UpdateResult.failed e)
          UpdateResult.updated_pending
          TableInsertResult.updated_pending

module _ {ℓ} {T : Type ℓ} where
  -- Without a failed status and without a promotion by the value, no result is out of place.
  pub of_updates-total :
      (v s : UpdateResult)
      → has_failed s ≡ false
      → v ≢ UpdateResult.updated_and_promoted
      → (r : TableInsertResult T) × (of_updates v s ≡ some r) × ReportsUpdates v s r
  of_updates-total UpdateResult.updated UpdateResult.updated h k = (_, refl, ReportsUpdates.both)
  of_updates-total UpdateResult.updated UpdateResult.updated_and_promoted h k =
      (_, refl, ReportsUpdates.both_promoted)
  of_updates-total UpdateResult.updated UpdateResult.not_modified h k =
      (_, refl, ReportsUpdates.value_only)
  of_updates-total UpdateResult.updated UpdateResult.updated_pending h k =
      (_, refl, ReportsUpdates.value_and_pending)
  of_updates-total UpdateResult.updated (UpdateResult.failed t) h k = absurd cc
  of_updates-total UpdateResult.not_modified UpdateResult.updated h k =
      (_, refl, ReportsUpdates.status_only)
  of_updates-total UpdateResult.not_modified UpdateResult.updated_and_promoted h k =
      (_, refl, ReportsUpdates.status_promoted)
  of_updates-total UpdateResult.not_modified UpdateResult.not_modified h k =
      (_, refl, ReportsUpdates.neither)
  of_updates-total UpdateResult.not_modified UpdateResult.updated_pending h k =
      (_, refl, ReportsUpdates.status_pending)
  of_updates-total UpdateResult.not_modified (UpdateResult.failed t) h k = absurd cc
  of_updates-total (UpdateResult.failed r) UpdateResult.updated h k =
      (_, refl, ReportsUpdates.failed_value r _ (λ q. absurd cc))
  of_updates-total (UpdateResult.failed r) UpdateResult.updated_and_promoted h k =
      (_, refl, ReportsUpdates.failed_value r _ (λ q. absurd cc))
  of_updates-total (UpdateResult.failed r) UpdateResult.not_modified h k =
      (_, refl, ReportsUpdates.failed_value r _ (λ q. absurd cc))
  of_updates-total (UpdateResult.failed r) UpdateResult.updated_pending h k =
      (_, refl, ReportsUpdates.failed_and_pending r)
  of_updates-total (UpdateResult.failed r) (UpdateResult.failed t) h k = absurd cc
  of_updates-total UpdateResult.updated_pending s h k = (_, refl, ReportsUpdates.pending_value s)
  of_updates-total UpdateResult.updated_and_promoted s h k = absurd (k refl)

-- What a value update that did not fail and a status update report together: a failure of the
-- status, else a promotion, else that a pending node changed, else whether anything changed.
pub data Joins : UpdateResult → UpdateResult → UpdateResult → Type 0 where
  status_failed :
      (v : UpdateResult) (e : FailureReason)
      → Joins v (UpdateResult.failed e) (UpdateResult.failed e)
  promoted :
      (v : UpdateResult)
      → Joins v UpdateResult.updated_and_promoted UpdateResult.updated_and_promoted
  value_pending :
      (w : UpdateResult)
      → has_failed w ≡ false
      → w ≢ UpdateResult.updated_and_promoted
      → Joins UpdateResult.updated_pending w UpdateResult.updated_pending
  status_pending :
      (v : UpdateResult) → Joins v UpdateResult.updated_pending UpdateResult.updated_pending
  nothing : Joins UpdateResult.not_modified UpdateResult.not_modified UpdateResult.not_modified
  status_updated :
      (v : UpdateResult)
      → v ≢ UpdateResult.updated_pending
      → Joins v UpdateResult.updated UpdateResult.updated
  value_updated : Joins UpdateResult.updated UpdateResult.not_modified UpdateResult.updated

pub join_updates-Joins :
    (v w : UpdateResult)
    → has_failed v ≡ false
    → v ≢ UpdateResult.updated_and_promoted
    → Joins v w (join_updates v w)
join_updates-Joins UpdateResult.updated UpdateResult.updated h k =
    Joins.status_updated _ (λ q. absurd cc)
join_updates-Joins UpdateResult.updated UpdateResult.updated_and_promoted h k = Joins.promoted _
join_updates-Joins UpdateResult.updated UpdateResult.not_modified h k = Joins.value_updated
join_updates-Joins UpdateResult.updated UpdateResult.updated_pending h k = Joins.status_pending _
join_updates-Joins UpdateResult.updated (UpdateResult.failed e) h k = Joins.status_failed _ e
join_updates-Joins UpdateResult.updated_pending UpdateResult.updated h k =
    Joins.value_pending _ refl (λ q. absurd cc)
join_updates-Joins UpdateResult.updated_pending UpdateResult.updated_and_promoted h k =
    Joins.promoted _
join_updates-Joins UpdateResult.updated_pending UpdateResult.not_modified h k =
    Joins.value_pending _ refl (λ q. absurd cc)
join_updates-Joins UpdateResult.updated_pending UpdateResult.updated_pending h k =
    Joins.status_pending _
join_updates-Joins UpdateResult.updated_pending (UpdateResult.failed e) h k =
    Joins.status_failed _ e
join_updates-Joins UpdateResult.not_modified UpdateResult.updated h k =
    Joins.status_updated _ (λ q. absurd cc)
join_updates-Joins UpdateResult.not_modified UpdateResult.updated_and_promoted h k =
    Joins.promoted _
join_updates-Joins UpdateResult.not_modified UpdateResult.not_modified h k = Joins.nothing
join_updates-Joins UpdateResult.not_modified UpdateResult.updated_pending h k =
    Joins.status_pending _
join_updates-Joins UpdateResult.not_modified (UpdateResult.failed e) h k = Joins.status_failed _ e
join_updates-Joins (UpdateResult.failed e) w h k = absurd cc
join_updates-Joins UpdateResult.updated_and_promoted w h k = absurd (k refl)
