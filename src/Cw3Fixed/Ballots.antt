-- ===== src/Cw3Fixed/Ballots.antt =====
-- The ballots of one proposal, against its tally and against the voters' weights.
use cw_plus.Base.{ℕ, ◌+◌, ◌≤◌, ◌≡◌, none, some, [], ◌∷◌, arith, u64_max, refl}
use cw_plus.Base.Dict.{Dict, lookup, insert, erase, IsMap, lookup-Above, lookup-erase, erase-IsMap}
use cw_plus.Base.Dict.Sum.{sum_by, sum_by-erase, sum_by-insert_new}
use cw_plus.Cw3.{Vote, Votes, Ballot, add_vote, yes_votes}
use cw_plus.Cw3.Outcome.{cast}

abbrev pub weight_of : Ballot → ℕ
weight_of b = b.weight

-- The weight that a vote adds to each of the four counts.
abbrev pub when_yes : Vote → ℕ → ℕ
when_yes Vote.yes w = w
when_yes _ w = 0

abbrev pub when_no : Vote → ℕ → ℕ
when_no Vote.no w = w
when_no _ w = 0

abbrev pub when_abstain : Vote → ℕ → ℕ
when_abstain Vote.abstain w = w
when_abstain _ w = 0

abbrev pub when_veto : Vote → ℕ → ℕ
when_veto Vote.veto w = w
when_veto _ w = 0

abbrev pub sum_yes : Dict Ballot → ℕ
sum_yes = sum_by (λ b. when_yes b.vote b.weight)

abbrev pub sum_no : Dict Ballot → ℕ
sum_no = sum_by (λ b. when_no b.vote b.weight)

abbrev pub sum_abstain : Dict Ballot → ℕ
sum_abstain = sum_by (λ b. when_abstain b.vote b.weight)

abbrev pub sum_veto : Dict Ballot → ℕ
sum_veto = sum_by (λ b. when_veto b.vote b.weight)

-- The tally counts every ballot once, under its vote.
pub record IsTallied (v : Votes) (bs : Dict Ballot) : Type 0 where
  pub counts_yes : v.yes ≡ sum_yes bs
  pub counts_no : v.no ≡ sum_no bs
  pub counts_abstain : v.abstain ≡ sum_abstain bs
  pub counts_veto : v.veto ≡ sum_veto bs

split_weight :
    (v : Vote) (w : ℕ) → when_yes v w + when_no v w + when_abstain v w + when_veto v w ≡ w
split_weight Vote.yes w = omega arith
split_weight Vote.no w = omega arith
split_weight Vote.abstain w = omega arith
split_weight Vote.veto w = omega arith

split_sum :
    (bs : Dict Ballot) → sum_yes bs + sum_no bs + sum_abstain bs + sum_veto bs ≡ sum_by weight_of bs
unfolding sum_by
split_sum [] = refl
split_sum ((k, b) ∷ bs) = omega (arith, split_sum bs, split_weight b.vote b.weight)

pub cast-sum_by : (v : Votes) (bs : Dict Ballot) → IsTallied v bs → cast v ≡ sum_by weight_of bs
cast-sum_by v bs t = omega (arith, split_sum bs)

-- Each ballot weighs what its voter does.
abbrev pub AreCastBy : Dict ℕ → Dict Ballot → Type 0
AreCastBy voters bs = (a : ℕ) (b : Ballot) → lookup a bs ≡ some b → lookup a voters ≡ some b.weight

rest-AreCastBy :
    (k : ℕ) (c : Ballot) (bs : Dict Ballot) (voters : Dict ℕ)
    → IsMap ((k, c) ∷ bs)
    → IsMap voters
    → AreCastBy voters ((k, c) ∷ bs)
    → AreCastBy (erase k voters) bs
unfolding lookup
rest-AreCastBy k c bs voters m n h a b e =
    ground (arith, h a b, lookup-erase a k voters n, lookup-Above a k bs m.0)

-- The ballots together weigh at most what the voters do.
pub ballots-le-voters :
    (bs : Dict Ballot) (voters : Dict ℕ)
    → IsMap bs
    → IsMap voters
    → AreCastBy voters bs
    → sum_by weight_of bs ≤ sum_by (λ w. w) voters
unfolding sum_by lookup
ballots-le-voters [] voters m n h = omega arith
ballots-le-voters ((k, c) ∷ bs) voters m n h = ground (
  arith,
  h k c,
  sum_by-erase (λ w. w) k voters,
  ballots-le-voters bs (erase k voters) m.1 (erase-IsMap k voters n)
      (rest-AreCastBy k c bs voters m n h),
)

-- How a new ballot moves the four sums.
sums :
    (a w : ℕ) (x : Vote) (bs : Dict Ballot)
    → IsMap bs
    → lookup a bs ≡ none
    → let bs' = insert a (record { weight = w; vote = x }) bs in
      (sum_yes bs' ≡ sum_yes bs + when_yes x w)
      × (sum_no bs' ≡ sum_no bs + when_no x w)
      × (sum_abstain bs' ≡ sum_abstain bs + when_abstain x w)
      × (sum_veto bs' ≡ sum_veto bs + when_veto x w)
sums a w x bs m new = (
  sum_by-insert_new _ a _ bs m new,
  sum_by-insert_new _ a _ bs m new,
  sum_by-insert_new _ a _ bs m new,
  sum_by-insert_new _ a _ bs m new,
)

-- A new ballot keeps the tally.
pub add_vote-IsTallied :
    (a w : ℕ) (x : Vote) (v v' : Votes) (bs : Dict Ballot)
    → IsMap bs
    → lookup a bs ≡ none
    → IsTallied v bs
    → add_vote x w v ≡ some v'
    → IsTallied v' (insert a (record { weight = w; vote = x }) bs)
unfolding add_vote
add_vote-IsTallied a w Vote.yes v v' bs m new t e = ground (arith, sums a w Vote.yes bs m new)
add_vote-IsTallied a w Vote.no v v' bs m new t e = ground (arith, sums a w Vote.no bs m new)
add_vote-IsTallied a w Vote.abstain v v' bs m new t e =
    ground (arith, sums a w Vote.abstain bs m new)
add_vote-IsTallied a w Vote.veto v v' bs m new t e = ground (arith, sums a w Vote.veto bs m new)

-- A vote whose weight fits does not overflow a count.
pub add_vote-some :
    (x : Vote) (w : ℕ) (v : Votes)
    → cast v + w ≤ u64_max
    → (v' : Votes) × (add_vote x w v ≡ some v')
unfolding add_vote
add_vote-some Vote.yes w v le = (record v { yes = v.yes + w }, ground arith)
add_vote-some Vote.no w v le = (record v { no = v.no + w }, ground arith)
add_vote-some Vote.abstain w v le = (record v { abstain = v.abstain + w }, ground arith)
add_vote-some Vote.veto w v le = (record v { veto = v.veto + w }, ground arith)

-- The proposer's ballot, the first.
pub yes_votes-IsTallied :
    (a w : ℕ) → IsTallied (yes_votes w) (insert a (record { weight = w; vote = Vote.yes }) [])
unfolding yes_votes insert sum_by
yes_votes-IsTallied a w = omega arith
