-- ===== src/IpVote/Tests.antt =====
-- The theorem on `IpVote` of src/service/ip_vote.rs, applied to five votes.
use discv.Prelude.{refl, ℕ, some, none, [], ◌≡◌, arith}
use discv.Prelude.Eq.{Eq, nat_Eq}
use discv.IpVote.{IpVote, v4, v6, new_votes, insert_vote, majority}
use discv.IpVote.Tally.{tally, is_v4, is_v6, majority-Wins}
use discv.IpVote.Winner.{Wins}

instance abbrev nat : Eq ℕ
nat = nat_Eq

-- Node 1 votes twice, and only its second vote counts. The vote of node 4 expires at 10.
abbrev poll : IpVote ℕ ℕ ℕ
poll = insert_vote 5 1 (v4 80) (
    insert_vote 5 2 (v4 80) (
      insert_vote 5 3 (v6 90) (
        insert_vote 5 1 (v4 70) (
          insert_vote 0 4 (v4 70)
            (record { votes = []; minimum_threshold = 2; vote_duration = 10 })))))

majority-Wins_example :
    Wins 2 (λ x. tally 12 (is_v4 x) poll.votes) (majority 12 poll).1
    × Wins 2 (λ x. tally 12 (is_v6 x) poll.votes) (majority 12 poll).2
unfolding insert_vote
majority-Wins_example = majority-Wins 12 poll (omega arith)

elected : ((majority 12 poll).1 ≡ some 80) × ((majority 12 poll).2 ≡ none)
unfolding majority insert_vote
elected = (refl, refl)

-- A threshold below 2 is refused.
refused : new_votes {I = ℕ} {A = ℕ} {B = ℕ} 1 10 ≡ none
unfolding new_votes
refused = refl
