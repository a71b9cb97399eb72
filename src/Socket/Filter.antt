-- ===== src/Socket/Filter.antt =====
-- src/socket/filter/mod.rs, `Filter`, with `PermitBanList` of src/permit_ban.rs; Cache is
-- src/socket/filter/cache.rs. The global `PERMIT_BAN_LIST` is passed on; its hash maps and sets are
-- functions. The counters for metrics are left out.
pub mod Cache
pub mod Clock
pub mod Judges
pub mod Runs
mod Tests
use discv.Prelude.{
  none, Option, Bool, ℕ, List, if◌then◌else◌, ◌∷◌, some, true, length, [], is_some, false, ◌+◌, leb,
  not,
}
use discv.Prelude.Eq.{Eq}
use discv.Prelude.{◌>>=◌}
use discv.Socket.RateLimiter.{RateLimiter, allows_request, LimitKind, ip, node_id, total, prune_all}
use discv.Socket.Filter.Cache.{ReceivedPacketCache, cache_insert}

-- `lru::LruCache`: a value that is there, with the cache as it is when another has been written in
-- its place, and `put` and `pop`.
pub record LruCache (K V : Type 0) : Type 1 where
  pub Cache : Type 0
  pub get_mut : K → Cache → Option (V × (V → Cache))
  pub put : K → V → Cache → Cache
  pub pop : K → Cache → Cache

-- A ban has the instant of its end, or none.
pub record PermitBanList (I A : Type 0) : Type 0 where
  pub permit_ips : A → Bool
  pub ban_ips : A → Option (Option ℕ)
  pub permit_nodes : I → Bool
  pub ban_nodes : I → Option (Option ℕ)

pub record SocketAddr (A : Type 0) : Type 0 where
  pub ip_addr : A
  pub port : ℕ

pub record NodeAddress (I A : Type 0) : Type 0 where
  pub socket_addr : SocketAddr A
  pub node : I

module _ {I A : Type 0} ⦃i : Eq I⦄ ⦃a : Eq A⦄ where
  abbrev pub ban_ip : A → Option ℕ → PermitBanList I A → PermitBanList I A
  ban_ip x until l = record l { ban_ips = λ y. if a.eq x y then some until else l.ban_ips y }

  abbrev pub ban_node : I → Option ℕ → PermitBanList I A → PermitBanList I A
  ban_node x until l = record l { ban_nodes = λ y. if i.eq x y then some until else l.ban_nodes y }

  -- `PermitBanList::ban`
  unfoldable pub ban : NodeAddress I A → Option ℕ → PermitBanList I A → PermitBanList I A
  ban address until l = ban_node address.node until (ban_ip address.socket_addr.ip_addr until l)

module _ {I : Type 0} ⦃i : Eq I⦄ where
  -- `HashSet::insert`
  unfoldable pub insert_id : I → List I → List I
  insert_id x [] = x ∷ []
  insert_id x (y ∷ ys) = if i.eq x y then y ∷ ys else y ∷ insert_id x ys

pub record Filter (I A : Type 0) ⦃known : LruCache A (List I)⦄ ⦃banned : LruCache A ℕ⦄
    : Type 0 where
  pub enabled : Bool
  pub rate_limiter : Option (RateLimiter I A)
  pub raw_packets_received : ReceivedPacketCache (SocketAddr A)
  pub ban_duration : Option ℕ
  pub known_addrs : known.Cache
  pub banned_nodes : banned.Cache
  pub max_nodes_per_ip : Option ℕ
  pub max_bans_per_ip : Option ℕ

-- The state of a check: the filter and the list.
abbrev pub State : (I A : Type 0) ⦃known : LruCache A (List I)⦄ ⦃banned : LruCache A ℕ⦄ → Type 0
State I A = Filter I A × PermitBanList I A

module _ {I A : Type 0} ⦃i : Eq I⦄ ⦃a : Eq A⦄ ⦃known : LruCache A (List I)⦄
    ⦃banned : LruCache A ℕ⦄ where
  abbrev pub ban_timeout : ℕ → Filter I A → Option ℕ
  ban_timeout now f = elim f.ban_duration [ none ↦ none | some d ↦ some (now + d) ]

  -- The end of `initial_pass`: the limits by address and in total, at the time `time` of the limiter.
  unfoldable pub check_rates : (now time : ℕ) → A → State I A → State I A × Bool
  unfolding allows_request
  check_rates now time src (f, l) = elim f.rate_limiter [
    | none ↦ ((f, l), true)
    | some r ↦
        let (r1, refused) = allows_request time (ip src) r in
        let f1 = record f { rate_limiter = some r1 } in
        elim refused [
          | some _ ↦ ((f1, ban_ip src (ban_timeout now f) l), false)
          | none ↦
              let (r2, refused') = allows_request time total r1 in
              let f2 = record f { rate_limiter = some r2 } in
              elim refused' [ some _ ↦ ((f2, l), false) | none ↦ ((f2, l), true) ]
        ]
  ]

  -- `Filter::initial_pass`; the clock gives `now`, then `time` to the limiter and `later` to a ban.
  unfoldable pub initial_pass :
      (now time later : ℕ) → SocketAddr A → State I A → Option (State I A × Bool)
  unfolding cache_insert check_rates
  initial_pass now time later src (f, l) =
      if l.permit_ips src.ip_addr
      then some ((f, l), true)
      else if is_some (l.ban_ips src.ip_addr)
      then some ((f, l), false)
      else (do
        (cache, added) ← cache_insert now src f.raw_packets_received
        let f1 = record f { raw_packets_received = cache }
        some (if f1.enabled then check_rates later time src.ip_addr (f1, l) else ((f1, l), true)))

  -- The node is banned, and its address if it has had too many nodes banned.
  unfoldable pub ban_for_rate : ℕ → NodeAddress I A → State I A → State I A
  ban_for_rate now address (f, l) =
      let src = address.socket_addr.ip_addr in
      let l1 = ban_node address.node (ban_timeout now f) l in
      elim f.max_bans_per_ip [
        | none ↦ (f, l1)
        | some max ↦ elim (banned.get_mut src f.banned_nodes) [
          | none ↦ (record f { banned_nodes = banned.put src 0 f.banned_nodes }, l1)
          | some (count, write) ↦ (
            record f { banned_nodes = write (count + 1) },
            if leb max (count + 1) then ban_ip src (ban_timeout now f) l1 else l1,
          )
        ]
      ]

  -- The node is recorded under its address: the caches, and how many nodes the address has.
  unfoldable pub record_node : NodeAddress I A → Filter I A → Filter I A × ℕ
  unfolding insert_id
  record_node address f =
      let src = address.socket_addr.ip_addr in
      elim (known.get_mut src f.known_addrs) [
        | some (ids, write) ↦
            let ids' = insert_id address.node ids in
            (record f { known_addrs = write ids' }, length ids')
        | none ↦ (record f { known_addrs = known.put src (address.node ∷ []) f.known_addrs }, 1)
      ]

  -- The end of `final_pass`: how many nodes an address may have.
  unfoldable pub check_nodes_per_ip : ℕ → NodeAddress I A → State I A → State I A × Bool
  unfolding record_node
  check_nodes_per_ip now address (f, l) = elim f.max_nodes_per_ip [
    | none ↦ ((f, l), true)
    | some max ↦
        let src = address.socket_addr.ip_addr in
        let (f1, known_nodes) = record_node address f in
        if leb max known_nodes
        then (
          (
            record f1 { known_addrs = known.pop src f1.known_addrs },
            ban_ip src (ban_timeout now f) l,
          ),
          false,
        )
        else ((f1, l), true)
  ]

  -- `Filter::final_pass`
  unfoldable pub final_pass : (time now : ℕ) → NodeAddress I A → State I A → State I A × Bool
  unfolding allows_request ban_for_rate check_nodes_per_ip
  final_pass time now address (f, l) =
      if l.permit_nodes address.node
      then ((f, l), true)
      else if is_some (l.ban_nodes address.node)
      then ((f, l), false)
      else if not f.enabled
      then ((f, l), true)
      else elim f.rate_limiter [
        | none ↦ check_nodes_per_ip now address (f, l)
        | some r ↦
            let (r1, refused) = allows_request time (node_id address.node) r in
            let f1 = record f { rate_limiter = some r1 } in
            elim refused [
              | some _ ↦ (ban_for_rate now address (f1, l), false)
              | none ↦ check_nodes_per_ip now address (f1, l)
            ]
      ]

  -- `Filter::prune_limiter`
  unfoldable pub prune_limiter : ℕ → Filter I A → Filter I A
  unfolding prune_all
  prune_limiter time f = record f {
    rate_limiter = elim f.rate_limiter [ none ↦ none | some r ↦ some (prune_all time r) ];
  }
