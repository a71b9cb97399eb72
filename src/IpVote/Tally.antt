-- ===== src/IpVote/Tally.antt =====
-- What `majority` of src/service/ip_vote.rs finds: the address with the most votes that have not
-- expired.
use discv.Prelude.{ℕ, List, [], ◌∷◌, ◌+◌, ◌≡◌, ◌≤◌, if◌then◌else◌, ltb, Bool-cases, inl, inr, arith}
use discv.Prelude.Eq.{Eq}
use discv.LruTimeCache.Entries.{Distinct}
use discv.IpVote.{
  SocketAddr, v4, v6, Vote, IpVote, retain, majority_of, count_up, count_votes, majority,
}
use discv.IpVote.Winner.{
  Wins, Wins-same, majority_of-Wins, of_none, count_of, count_of-count_up, count_up-Distinct,
}

module _ {I A B : Type 0} where
  -- The number of the votes for an address that have not expired.
  unfoldable pub tally : (instant : ℕ) → (SocketAddr A B → ℕ) → List (I × Vote A B) → ℕ
  tally instant is_for [] = 0
  tally instant is_for ((i, (s, until)) ∷ vs) =
      (if ltb instant until then is_for s else 0) + tally instant is_for vs

module _ {A B : Type 0} ⦃a : Eq A⦄ ⦃b : Eq B⦄ where
  abbrev pub is_v4 : A → SocketAddr A B → ℕ
  is_v4 x (v4 s) = if a.eq x s then 1 else 0
  is_v4 x (v6 s) = 0

  abbrev pub is_v6 : B → SocketAddr A B → ℕ
  is_v6 x (v4 s) = 0
  is_v6 x (v6 s) = if b.eq x s then 1 else 0

module _ {I A B : Type 0} ⦃a : Eq A⦄ ⦃b : Eq B⦄ where
  -- What the loop over the votes that are retained leaves in the two maps.
  record Counts (instant : ℕ) (vs : List (I × Vote A B)) (m4 : List (A × ℕ)) (m6 : List (B × ℕ))
      (r : List (A × ℕ) × List (B × ℕ)) : Type 0 where
    distinct4 : Distinct r.0
    distinct6 : Distinct r.1
    counts4 : (x : A) → count_of x r.0 ≡ tally instant (is_v4 x) vs + count_of x m4
    counts6 : (x : B) → count_of x r.1 ≡ tally instant (is_v6 x) vs + count_of x m6

  count_votes-Counts :
      (instant : ℕ) (vs : List (I × Vote A B)) (m4 : List (A × ℕ)) (m6 : List (B × ℕ))
      → Distinct m4
      → Distinct m6
      → Counts instant vs m4 m6 (count_votes (retain instant vs) m4 m6)
  unfolding count_votes retain tally
  count_votes-Counts instant [] m4 m6 d4 d6 = record {
    distinct4 = d4;
    distinct6 = d6;
    counts4 = λ x. omega arith;
    counts6 = λ x. omega arith;
  }
  count_votes-Counts instant ((i, (v4 s, until)) ∷ vs) m4 m6 d4 d6 =
      elim (Bool-cases (ltb instant until)) [
        | inl g ↦
            let r =
              count_votes-Counts instant vs (count_up s m4) m6 (count_up-Distinct s m4 d4) d6 in
            rw g (record {
              distinct4 = r.distinct4;
              distinct6 = r.distinct6;
              counts4 = λ x. rw g (omega (arith, r.counts4 x, count_of-count_up x s m4));
              counts6 = λ x. rw g (omega (arith, r.counts6 x));
            })
        | inr g ↦
            let r = count_votes-Counts instant vs m4 m6 d4 d6 in
            rw g (record {
              distinct4 = r.distinct4;
              distinct6 = r.distinct6;
              counts4 = λ x. rw g (omega (arith, r.counts4 x));
              counts6 = λ x. rw g (omega (arith, r.counts6 x));
            })
      ]
  count_votes-Counts instant ((i, (v6 s, until)) ∷ vs) m4 m6 d4 d6 =
      elim (Bool-cases (ltb instant until)) [
        | inl g ↦
            let r =
              count_votes-Counts instant vs m4 (count_up s m6) d4 (count_up-Distinct s m6 d6) in
            rw g (record {
              distinct4 = r.distinct4;
              distinct6 = r.distinct6;
              counts6 = λ x. rw g (omega (arith, r.counts6 x, count_of-count_up x s m6));
              counts4 = λ x. rw g (omega (arith, r.counts4 x));
            })
        | inr g ↦
            let r = count_votes-Counts instant vs m4 m6 d4 d6 in
            rw g (record {
              distinct4 = r.distinct4;
              distinct6 = r.distinct6;
              counts4 = λ x. rw g (omega (arith, r.counts4 x));
              counts6 = λ x. rw g (omega (arith, r.counts6 x));
            })
      ]

  -- With a threshold of 2 or more, as `new` demands, `majority` gives for each kind of address one
  -- that no other has more unexpired votes than, and that has as many as the threshold; or it gives
  -- none, and every address of that kind has fewer.
  pub majority-Wins :
      (instant : ℕ) (p : IpVote I A B)
      → 2 ≤ p.minimum_threshold
      → Wins p.minimum_threshold (λ x. tally instant (is_v4 x) p.votes) (majority instant p).1
        × Wins p.minimum_threshold (λ x. tally instant (is_v6 x) p.votes) (majority instant p).2
  unfolding majority
  majority-Wins instant p le =
      let t = p.minimum_threshold in
      let r = count_votes (retain instant p.votes) [] [] in
      let c = count_votes-Counts instant p.votes [] [] tt tt in
      (
        Wins-same t (λ k. count_of k r.0) (λ x. tally instant (is_v4 x) p.votes) (majority_of t r.0)
            (λ x. of_none x (tally instant (is_v4 x) p.votes) r.0 (c.counts4 x))
            (majority_of-Wins t r.0 (omega arith) c.distinct4),
        Wins-same t (λ k. count_of k r.1) (λ x. tally instant (is_v6 x) p.votes) (majority_of t r.1)
            (λ x. of_none x (tally instant (is_v6 x) p.votes) r.1 (c.counts6 x))
            (majority_of-Wins t r.1 (omega arith) c.distinct6),
      )
