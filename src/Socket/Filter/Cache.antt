-- ===== src/Socket/Filter/Cache.antt =====
-- src/socket/filter/cache.rs, `ReceivedPacketCache`. An instant is a number of nanoseconds, and the
-- clock stands still while `reset` runs. A method returns `none` where it panics: the clock shows
-- less than the time window, so that the instant before it cannot be had.
use discv.Prelude.{
  ℕ, List, Option, [], Bool, if◌then◌else◌, some, ltb, ◌∷◌, leb, none, ◌>>=◌, ◌*◌, false, ◌-◌, suc,
  ◌++◌, ◌+◌, true,
}
use mathlib.Core.List.{reverse}

abbrev pub second : ℕ
second = 1000000000

-- `ENFORCED_SIZE_TIME`
abbrev pub enforced_size_time : ℕ
enforced_size_time = 1

pub record ReceivedPacket (T : Type 0) : Type 0 where
  pub content : T
  pub received : ℕ

pub record ReceivedPacketCache (T : Type 0) : Type 0 where
  pub target : ℕ
  pub time_window : ℕ
  pub within_enforced_time : ℕ
  pub inner : List (ReceivedPacket T)

-- `Instant::checked_sub(..).unwrap()`
abbrev pub before : ℕ → ℕ → Option ℕ
before now d = if ltb now d then none else some (now - d)

module _ {T : Type 0} where
  -- `ReceivedPacketCache::new`
  unfoldable pub new_cache : ℕ → ℕ → ReceivedPacketCache T
  new_cache target time_window = record {
    target = target;
    time_window = time_window;
    within_enforced_time = 0;
    inner = [];
  }

  -- The first loop of `reset`: old packets are taken from the front.
  unfoldable pub drop_expired : ℕ → ℕ → List (ReceivedPacket T) → Option (List (ReceivedPacket T))
  drop_expired now window [] = some []
  drop_expired now window (p ∷ ps) =
      let rest = drop_expired now window ps in
      before now window >>= λ start. if ltb start p.received then some (p ∷ ps) else rest

  -- The second loop, over the packets from the newest: those of the last second are counted.
  unfoldable pub count_recent : ℕ → List (ReceivedPacket T) → Option ℕ
  count_recent now [] = some 0
  count_recent now (p ∷ ps) =
      let rest = count_recent now ps in
      before now (enforced_size_time * second) >>= λ start.
      if ltb start p.received then (rest >>= λ n. some (suc n)) else some 0

  unfoldable pub reset : ℕ → ReceivedPacketCache T → Option (ReceivedPacketCache T)
  unfolding drop_expired count_recent
  reset now c = do
    kept ← drop_expired now (c.time_window * second) c.inner
    count ← count_recent now (reverse kept)
    some (record c { inner = kept; within_enforced_time = count })

  unfoldable pub internal_insert : ℕ → T → ReceivedPacketCache T → ReceivedPacketCache T × Bool
  internal_insert now content c = if leb c.target c.within_enforced_time then (c, false) else (
    record c {
      inner = c.inner ++ record { content = content; received = now } ∷ [];
      within_enforced_time = c.within_enforced_time + 1;
    },
    true,
  )

  unfoldable pub cache_insert :
      ℕ → T → ReceivedPacketCache T → Option (ReceivedPacketCache T × Bool)
  unfolding reset internal_insert
  cache_insert now content c = do c' ← reset now c; some (internal_insert now content c')
