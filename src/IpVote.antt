-- ===== src/IpVote.antt =====
-- src/service/ip_vote.rs: the external addresses that peers report, and the majority of them. A
-- `HashMap` is a list of its entries, in the order of an iteration; `new` returns `none` where it
-- panics.
pub mod Winner
pub mod Tally
mod Tests
use discv.Prelude.{ℕ, Option, some, none, List, [], ◌∷◌, ◌+◌, if◌then◌else◌, leb, ltb, Bool}
use discv.Prelude.Eq.{Eq}

-- `std::net::SocketAddr`, of an IPv4 or an IPv6 socket
pub data SocketAddr (A B : Type 0) : Type 0 where
  v4 : A → SocketAddr A B
  v6 : B → SocketAddr A B

-- A vote, and the instant at which it expires.
abbrev pub Vote : Type 0 → Type 0 → Type 0
Vote A B = SocketAddr A B × ℕ

pub record IpVote (I A B : Type 0) : Type 0 where
  pub votes : List (I × Vote A B)
  pub minimum_threshold : ℕ
  pub vote_duration : ℕ

module _ {I A B : Type 0} where
  -- `IpVote::new`
  unfoldable pub new_votes : (minimum_threshold vote_duration : ℕ) → Option (IpVote I A B)
  new_votes minimum_threshold vote_duration =
      if ltb minimum_threshold 2
      then none
      else some (record {
        votes = [];
        minimum_threshold = minimum_threshold;
        vote_duration = vote_duration;
      })

  -- `retain` of the votes that have not expired
  unfoldable pub retain : (instant : ℕ) → List (I × Vote A B) → List (I × Vote A B)
  retain instant [] = []
  retain instant ((i, (s, until)) ∷ vs) =
      if ltb instant until then (i, (s, until)) ∷ retain instant vs else retain instant vs

module _ {I A B : Type 0} ⦃i : Eq I⦄ where
  unfoldable pub put_vote : I → Vote A B → List (I × Vote A B) → List (I × Vote A B)
  put_vote k v [] = (k, v) ∷ []
  put_vote k v ((j, w) ∷ vs) = if i.eq k j then (j, v) ∷ vs else (j, w) ∷ put_vote k v vs

  -- `IpVote::insert`
  unfoldable pub insert_vote : (now : ℕ) → I → SocketAddr A B → IpVote I A B → IpVote I A B
  unfolding put_vote
  insert_vote now k socket p = record p {
    votes = put_vote k (socket, now + p.vote_duration) p.votes;
  }

module _ {K : Type 0} where
  -- `max_by_key` of the counts: of several greatest ones the last.
  unfoldable pub max_count : K × ℕ → List (K × ℕ) → K × ℕ
  max_count best [] = best
  max_count best (x ∷ xs) = if leb best.1 x.1 then max_count x xs else max_count best xs

  unfoldable pub reached : (threshold : ℕ) → List (K × ℕ) → List (K × ℕ)
  reached threshold [] = []
  reached threshold (x ∷ xs) =
      if leb threshold x.1 then x ∷ reached threshold xs else reached threshold xs

  -- The function `majority`
  unfoldable pub majority_of : (threshold : ℕ) → List (K × ℕ) → Option K
  unfolding max_count reached
  majority_of threshold counts = elim (reached threshold counts) [
    | [] ↦ none
    | x ∷ xs ↦ some (max_count x xs).0
  ]

module _ {K : Type 0} ⦃e : Eq K⦄ where
  -- `*entry(k).or_insert_with(|| 0) += 1`
  unfoldable pub count_up : K → List (K × ℕ) → List (K × ℕ)
  count_up k [] = (k, 1) ∷ []
  count_up k ((x, n) ∷ m) = if e.eq k x then (x, n + 1) ∷ m else (x, n) ∷ count_up k m

module _ {I A B : Type 0} ⦃a : Eq A⦄ ⦃b : Eq B⦄ where
  -- The loop over the votes, with the two maps of counts.
  unfoldable pub count_votes :
      List (I × Vote A B) → List (A × ℕ) → List (B × ℕ) → List (A × ℕ) × List (B × ℕ)
  unfolding count_up
  count_votes [] m4 m6 = (m4, m6)
  count_votes ((i, (v4 s, until)) ∷ vs) m4 m6 = count_votes vs (count_up s m4) m6
  count_votes ((i, (v6 s, until)) ∷ vs) m4 m6 = count_votes vs m4 (count_up s m6)

  -- `IpVote::majority`
  unfoldable pub majority : (instant : ℕ) → IpVote I A B → IpVote I A B × Option A × Option B
  unfolding retain count_votes majority_of
  majority instant p =
      let vs = retain instant p.votes in
      let (m4, m6) = count_votes vs [] [] in
      (
        record p { votes = vs },
        majority_of p.minimum_threshold m4,
        majority_of p.minimum_threshold m6,
      )
