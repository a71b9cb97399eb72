-- ===== src/KBucket/IpFilter/Count.antt =====
-- src/kbucket/filter.rs: the loop with its early return counts the subnet.
use discv.Prelude.{none, some, suc}
use discv.Prelude.{List, ℕ, ◌∷◌, some, if◌then◌else◌, []}
use discv.KBucket.IpFilter.{EnrApi, same_subnet}

module _ {E : Type 0} ⦃enr : EnrApi E⦄ where
  -- How many of the values are others than this one and in its subnet.
  unfoldable pub subnet_count : E → List E → ℕ
  subnet_count value [] = 0
  subnet_count value (other ∷ others) =
      let rest = subnet_count value others in
      if enr.eq other value then rest else elim (enr.ip4 value) [
        | none ↦ rest
        | some ip ↦ if same_subnet ip (enr.ip4 other) then suc rest else rest
      ]
