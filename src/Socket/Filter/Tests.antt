-- ===== src/Socket/Filter/Tests.antt =====
-- The theorems on the packet filter of src/socket/filter, applied.
use discv.Socket.Filter.Clock.{cache_insert-Inserts}
use discv.Socket.Filter.Clock.{Inserts}
use discv.Prelude.{
  refl, ◌>>=◌, some, none, List, [], ◌∷◌, ℕ, Option, true, false, Bool, ◌≡◌, if◌then◌else◌, ◌==◌,
  arith,
}
use discv.Prelude.Eq.{Eq, nat_Eq}
use discv.Socket.Filter.{
  LruCache, Filter, State, PermitBanList, NodeAddress, initial_pass, final_pass, ban,
}
use discv.Socket.Filter.Cache.{ReceivedPacketCache, cache_insert, new_cache}
use discv.Socket.Filter.Runs.{banned_by_user, node_at, run, call, run-Refuses}

instance abbrev nat : Eq ℕ
nat = nat_Eq

-- A cache without a limit.
abbrev all_kept : (V : Type 0) → LruCache ℕ V
all_kept V = record {
  Cache = ℕ → Option V;
  get_mut = λ k c. c k >>= λ v. some (v, λ w j. if j == k then some w else c j);
  put = λ k v c j. if j == k then some v else c j;
  pop = λ k c j. if j == k then none else c j;
}

instance abbrev known : LruCache ℕ (List ℕ)
known = all_kept (List ℕ)

instance abbrev banned : LruCache ℕ ℕ
banned = all_kept ℕ

abbrev sender : NodeAddress ℕ ℕ
sender = record { socket_addr = record { ip_addr = 10; port = 9000 }; node = 3 }

abbrev filter : Filter ℕ ℕ
filter = record {
  enabled = true;
  rate_limiter = none;
  raw_packets_received = new_cache 20 5;
  ban_duration = some 60;
  known_addrs = λ _. none;
  banned_nodes = λ _. none;
  max_nodes_per_ip = some 10;
  max_bans_per_ip = some 5;
}

-- The node of the sender is banned for good, and its address is not.
abbrev list : PermitBanList ℕ ℕ
list = record {
  permit_ips = λ _. false;
  ban_ips = λ _. none;
  permit_nodes = λ _. false;
  ban_nodes = λ x. if x == 3 then some none else none;
}

-- A ban of another node in between.
abbrev other : NodeAddress ℕ ℕ
other = record { socket_addr = record { ip_addr = 11; port = 9000 }; node = 4 }

abbrev after : State ℕ ℕ
after = (filter, ban other (some 100) list)

run-Refuses_example : final_pass 2 3 sender after ≡ (after, false)
unfolding run call
run-Refuses_example =
    run-Refuses (node_at sender) (banned_by_user other (some 100) ∷ []) (filter, list) after 1 2 3
      refl refl refl

-- The address that was banned in between is refused as well.
other_refused : initial_pass 1 2 3 other.socket_addr after ≡ some (after, false)
unfolding initial_pass ban
other_refused = refl

abbrev packets : ReceivedPacketCache ℕ
packets = record {
  target = 1;
  time_window = 5;
  within_enforced_time = 0;
  inner = record { content = 7; received = 6000000000 } ∷ [];
}

cache_insert-Inserts_example :
    (r : ReceivedPacketCache ℕ × Bool) × (cache_insert 6500000000 8 packets ≡ some r)
    × Inserts 6500000000 8 packets r
cache_insert-Inserts_example =
    cache_insert-Inserts 6500000000 8 packets (tt, tt) (omega arith) (omega arith)
