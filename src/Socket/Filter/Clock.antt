-- ===== src/Socket/Filter/Clock.antt =====
-- src/socket/filter/cache.rs: the cache of received packets does not panic while the clock shows more
-- than its time window, and how many packets of the last second it takes.
use mathlib.Core.List.{reverse, reverse-cons}
use discv.Prelude.{
  refl, [], ◌∷◌, some, ℕ, List, if◌then◌else◌, All, ◌≤◌, ltb, ◌≡◌, suc, arith, ◌-◌, false,
  Bool-cases, inl, inr, ◌++◌, ◌+◌, Bool, ◌*◌, true, leb, ◌⊎◌, sym, ◌<◌, ltb→lt, ap,
}
use discv.Socket.Filter.Cache.{
  ReceivedPacket, second, count_recent, drop_expired, ReceivedPacketCache, reset, cache_insert,
  internal_insert,
}

module _ {T : Type 0} where
  -- The packets received after an instant.
  unfoldable pub received_after : ℕ → List (ReceivedPacket T) → ℕ
  received_after start [] = 0
  received_after start (p ∷ ps) =
      if ltb start p.received then suc (received_after start ps) else received_after start ps

  -- Oldest first.
  abbrev pub IsOrdered : List (ReceivedPacket T) → Type 0
  IsOrdered [] = Unit {0}
  IsOrdered (p ∷ ps) = All (λ (q : ReceivedPacket T). p.received ≤ q.received) ps × IsOrdered ps

  abbrev NewestFirst : List (ReceivedPacket T) → Type 0
  NewestFirst [] = Unit {0}
  NewestFirst (p ∷ ps) = All (λ (q : ReceivedPacket T). q.received ≤ p.received) ps × NewestFirst ps

  none_after :
      (start : ℕ) (ps : List (ReceivedPacket T)) (p : ReceivedPacket T)
      → All (λ (q : ReceivedPacket T). q.received ≤ p.received) ps
      → p.received ≤ start
      → received_after start ps ≡ 0
  unfolding received_after
  none_after start [] p h l = refl
  none_after start (q ∷ ps) p h l = ground (arith, none_after start ps p h.1 l, h.0)

  -- The loop from the newest packet, which stops at the first old one, counts all that are recent.
  count_recent_lem :
      (now : ℕ) (ps : List (ReceivedPacket T))
      → second ≤ now
      → NewestFirst ps
      → count_recent now ps ≡ some (received_after (now - second) ps)
  unfolding count_recent received_after
  count_recent_lem now [] h o = refl
  count_recent_lem now (p ∷ ps) h o =
      ground (arith, count_recent_lem now ps h o.1, none_after (now - second) ps p o.0)

  all_after :
      (start : ℕ) (p : ReceivedPacket T) (ps : List (ReceivedPacket T))
      → start < p.received
      → All (λ (q : ReceivedPacket T). p.received ≤ q.received) ps
      → All (λ (q : ReceivedPacket T). start < q.received) ps
  all_after start p [] h o = tt
  all_after start p (q ∷ ps) h o = (omega (arith, h, o.0), all_after start p ps h o.1)

  -- A list of packets parted at an instant: those up to it, and those after it.
  abbrev pub Parted :
      ℕ → List (ReceivedPacket T) → List (ReceivedPacket T) → List (ReceivedPacket T) → Type 0
  Parted start ps old young =
      (ps ≡ old ++ young)
      × All (λ (p : ReceivedPacket T). p.received ≤ start) old
      × All (λ (p : ReceivedPacket T). start < p.received) young

  drop_expired_lem :
      (now window : ℕ) (ps : List (ReceivedPacket T))
      → window ≤ now
      → IsOrdered ps
      → (old : List (ReceivedPacket T)) × (qs : List (ReceivedPacket T)) × (drop_expired now window
            ps
          ≡ some qs)
        × IsOrdered qs
        × Parted (now - window) ps old qs
  unfolding drop_expired
  drop_expired_lem now window [] h o = ([], [], refl, tt, (refl, tt, tt))
  drop_expired_lem now window (p ∷ ps) h o =
      let fine : ltb now window ≡ false = ground arith in
      elim (Bool-cases (ltb (now - window) p.received)) [
        | inl young ↦
            let l : now - window < p.received = ltb→lt (now - window) p.received young in
            (
              [],
              p ∷ ps,
              rw (fine, young) refl,
              o,
              (refl, tt, (l, all_after (now - window) p ps l o.0)),
            )
        | inr gone ↦
            let (old, qs, e, k, part) = drop_expired_lem now window ps h o.1 in
            let l : p.received ≤ now - window = ground arith in
            (p ∷ old, qs, rw (fine, gone) e, k, (ap (◌∷◌ p) part.0, (l, part.1), part.2))
      ]

  received_after-append :
      (start : ℕ) (ps qs : List (ReceivedPacket T))
      → received_after start (ps ++ qs) ≡ received_after start ps + received_after start qs
  unfolding received_after
  received_after-append start [] qs = omega arith
  received_after-append start (p ∷ ps) qs = ground (arith, received_after-append start ps qs)

  received_after-reverse :
      (start : ℕ) (ps : List (ReceivedPacket T))
      → received_after start (reverse ps) ≡ received_after start ps
  unfolding received_after
  received_after-reverse start [] = refl
  received_after-reverse start (p ∷ ps) =
      rw (reverse-cons p ps, received_after-append)
        (ground (arith, received_after-reverse start ps))

  module _ (P : ReceivedPacket T → Type 0) where
    All-last :
        (ps : List (ReceivedPacket T)) (p : ReceivedPacket T)
        → All P ps
        → P p
        → All P (ps ++ p ∷ [])
    All-last [] p h k = (k, tt)
    All-last (q ∷ ps) p h k = (h.0, All-last ps p h.1 k)

    All-reverse : (ps : List (ReceivedPacket T)) → All P ps → All P (reverse ps)
    All-reverse [] h = tt
    All-reverse (p ∷ ps) h =
        rw (reverse-cons p ps) (All-last (reverse ps) p (All-reverse ps h.1) h.0)

  NewestFirst-last :
      (ps : List (ReceivedPacket T)) (p : ReceivedPacket T)
      → NewestFirst ps
      → All (λ (q : ReceivedPacket T). p.received ≤ q.received) ps
      → NewestFirst (ps ++ p ∷ [])
  NewestFirst-last [] p h k = (tt, tt)
  NewestFirst-last (q ∷ ps) p h k = (
    All-last (λ (x : ReceivedPacket T). x.received ≤ q.received) ps p h.0 k.0,
    NewestFirst-last ps p h.1 k.1,
  )

  NewestFirst-reverse : (ps : List (ReceivedPacket T)) → IsOrdered ps → NewestFirst (reverse ps)
  NewestFirst-reverse [] o = tt
  NewestFirst-reverse (p ∷ ps) o = rw (reverse-cons p ps) (
      NewestFirst-last (reverse ps) p (NewestFirst-reverse ps o.1)
        (All-reverse (λ (q : ReceivedPacket T). p.received ≤ q.received) ps o.0))

  recent_new :
      (now : ℕ) (content : T)
      → second ≤ now
      → received_after (now - second) (record { content = content; received = now } ∷ []) ≡ 1
  unfolding received_after
  recent_new now content h = let l : ltb (now - second) now ≡ true = ground arith in rw l refl

  -- What `cache_insert` gives: the packets of the time window are kept, the count is that of the
  -- packets of the last second, and the new packet is put last exactly if that leaves no more than
  -- `target` of these.
  abbrev pub Inserts : ℕ → T → ReceivedPacketCache T → ReceivedPacketCache T × Bool → Type 0
  Inserts now content c (c', taken) =
      (c'.within_enforced_time ≡ received_after (now - second) c'.inner)
      × (c'.target ≡ c.target)
      × (c'.time_window ≡ c.time_window)
      × ((old : List (ReceivedPacket T)) × (kept : List (ReceivedPacket T)) × Parted
            (now - c.time_window * second) c.inner old kept
          × (((taken ≡ true)
                × (c'.inner ≡ kept ++ record { content = content; received = now } ∷ [])
                × (received_after (now - second) c'.inner ≤ c.target))
              ⊎ ((taken ≡ false)
                  × (c'.inner ≡ kept)
                  × (c.target ≤ received_after (now - second) c'.inner))))

  reset_lem :
      (now : ℕ) (c : ReceivedPacketCache T) (kept : List (ReceivedPacket T))
      → second ≤ now
      → IsOrdered kept
      → drop_expired now (c.time_window * second) c.inner ≡ some kept
      → reset now c
        ≡ some
            (record c { inner = kept; within_enforced_time = received_after (now - second) kept })
  unfolding reset
  reset_lem now c kept h o e =
      let n : count_recent now (reverse kept) ≡ some (received_after (now - second) kept) =
        rw
          (
            count_recent_lem now (reverse kept) h (NewestFirst-reverse kept o),
            received_after-reverse,
          )
          refl in
      rw (e, n) refl

  -- With the packets in the order of their arrival, and the clock at its time window and one second
  -- at least, `cache_insert` returns. It drops the packets that are as old as the time window or
  -- older and keeps the others in their order, the count is that of the packets of the last second,
  -- and the new packet is put last exactly if that leaves no more than `target` of these.
  pub cache_insert-Inserts :
      (now : ℕ) (content : T) (c : ReceivedPacketCache T)
      → IsOrdered c.inner
      → c.time_window * second ≤ now
      → second ≤ now
      → (r : ReceivedPacketCache T × Bool) × (cache_insert now content c ≡ some r)
        × Inserts now content c r
  unfolding cache_insert internal_insert
  cache_insert-Inserts now content c o w h =
      let (old, kept, e, k, part) = drop_expired_lem now (c.time_window * second) c.inner w o in
      let n = received_after (now - second) kept in
      let r = reset_lem now c kept h k e in
      let new : received_after (now - second) (record { content = content; received = now } ∷ [])
          ≡ 1 =
        recent_new now content h in
      elim (Bool-cases (leb c.target n)) [
        | inl full ↦ (
          (record c { inner = kept; within_enforced_time = n }, false),
          rw (r, full) refl,
          (refl, refl, refl, (old, kept, part, inr (refl, refl, ground arith))),
        )
        | inr free ↦
            let sum : received_after (now - second)
                  (kept ++ record { content = content; received = now } ∷ [])
                ≡ n + 1 =
              rw (received_after-append) (omega (arith, new)) in
            (
              (
                record c {
                  inner = kept ++ record { content = content; received = now } ∷ [];
                  within_enforced_time = n + 1;
                },
                true,
              ),
              rw (r, free) refl,
              (sym sum, refl, refl, (old, kept, part, inl (refl, refl, ground (arith, sum)))),
            )
      ]
