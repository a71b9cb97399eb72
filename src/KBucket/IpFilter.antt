-- ===== src/KBucket/IpFilter.antt =====
-- src/kbucket/filter.rs: the filters that limit the nodes of one /24 subnet in the table and in a
-- bucket. An ENR, of the crate `enr`, is a type with its equality and its IPv4 address.
pub mod Count
mod Tests
use discv.Prelude.{
  ℕ, Bool, Option, false, List, some, true, ◌==◌, ◌∷◌, ◌&&◌, if◌then◌else◌, ◌+◌, none, leb, [],
}
use discv.KBucket.Node.{Filter}

-- `Ipv4Addr::octets`
pub record Ip4 : Type 0 where
  pub a : ℕ
  pub b : ℕ
  pub c : ℕ
  pub d : ℕ

pub record EnrApi (E : Type 0) : Type 0 where
  pub eq : E → E → Bool
  pub ip4 : E → Option Ip4

abbrev pub max_nodes_per_subnet_table : ℕ
max_nodes_per_subnet_table = 10

abbrev pub max_nodes_per_subnet_bucket : ℕ
max_nodes_per_subnet_bucket = 2

-- `octets()[0..3]` are the same.
abbrev pub same_subnet : Ip4 → Option Ip4 → Bool
same_subnet ip none = false
same_subnet ip (some other) = (other.a == ip.a) && (other.b == ip.b) && (other.c == ip.c)

module _ {E : Type 0} ⦃enr : EnrApi E⦄ where
  -- The loop over the other values.
  unfoldable pub below_limit : E → Ip4 → ℕ → ℕ → List E → Bool
  below_limit value ip limit count [] = true
  below_limit value ip limit count (other ∷ others) =
      let count' = if same_subnet ip (enr.ip4 other) then count + 1 else count in
      if enr.eq other value
      then below_limit value ip limit count others
      else if leb limit count'
      then false
      else below_limit value ip limit count' others

  unfoldable pub ip_filter : ℕ → E → List E → Bool
  unfolding below_limit
  ip_filter limit value other_vals = elim (enr.ip4 value) [
    | none ↦ true
    | some ip ↦ below_limit value ip limit 0 other_vals
  ]

  unfoldable pub ip_table_filter : Filter E
  unfolding ip_filter
  ip_table_filter value other_vals = ip_filter max_nodes_per_subnet_table value other_vals

  unfoldable pub ip_bucket_filter : Filter E
  unfolding ip_filter
  ip_bucket_filter value other_vals = ip_filter max_nodes_per_subnet_bucket value other_vals
