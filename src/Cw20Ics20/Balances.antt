-- ===== src/Cw20Ics20/Balances.antt =====
-- The balances of the channels of contracts/cw20-ics20, as each operation changes them.
use cw_plus.Base.{
  ℕ, ◌+◌, ◌-◌, ◌≤◌, ◌<◌, ◌≡◌, ◌⊎◌, ◌==◌, ◌&&◌, Option, none, some, ok, err, panic, arith, inl, inr,
  if◌then◌else◌, Option-cases, u128_max,
}
use cw_plus.Base.Dict.{lookup}
use cw_plus.Base.Dict.Pairs.{lookup_pair, insert_pair, lookup_pair-insert_pair}
use cw_plus.Host.{Host, Addr}
use cw_plus.Cw20Ics20.State.{
  ChannelState, Config, AllowInfo, State, Outside, cw20, ContractError, or_default, from_parts,
  increase_channel_balance, reduce_channel_balance, undo_reduce_channel_balance,
}
use cw_plus.Cw20Ics20.Ibc.{check_gas_limit}

-- What a channel still has to give back of a denomination.
abbrev pub outstanding_of : ℕ → ℕ → State → ℕ
outstanding_of c d st = (or_default (lookup_pair c d st.channel_state)).outstanding

-- The amount, at one channel and denomination.
abbrev pub at_pair : ℕ → ℕ → ℕ → ℕ → ℕ → ℕ
at_pair channel denom amount c d = if (c == channel) && (d == denom) then amount else 0

-- A balance of one channel and denomination is lowered, and nothing else is changed.
pub record Lowers (channel denom amount : ℕ) (st st' : State) : Type 0 where
  pub same_allow_list : st'.allow_list ≡ st.allow_list
  pub same_config : st'.config ≡ st.config
  pub lowered :
      (c d : ℕ) → outstanding_of c d st' + at_pair channel denom amount c d ≡ outstanding_of c d st

module _ (h : Host) (channel denom amount : ℕ) where
  pub reduce_channel_balance-Lowers :
      (st st' : State)
      → reduce_channel_balance h channel denom amount st ≡ ok st'
      → ((s : ChannelState) × (lookup_pair channel denom st.channel_state ≡ some s))
        × Lowers channel denom amount st st'
  unfolding reduce_channel_balance
  reduce_channel_balance-Lowers st st' e =
      elim (Option-cases (lookup_pair channel denom st.channel_state)) [
        | inl missing ↦ absurd (ground arith)
        | inr (s, found) ↦
            let less : ChannelState = record s { outstanding = s.outstanding - amount } in
            (
              (s, found),
              record {
                same_allow_list = ground (arith, h.sub_128_lem s.outstanding amount);
                same_config = ground (arith, h.sub_128_lem s.outstanding amount);
                lowered = λ c d. ground (
                  arith,
                  h.sub_128_lem s.outstanding amount,
                  lookup_pair-insert_pair c d channel denom less st.channel_state,
                );
              },
            )
      ]

  pub reduce_channel_balance-panic :
      (st : State) → reduce_channel_balance h channel denom amount st ≡ panic → ⊥
  unfolding reduce_channel_balance
  reduce_channel_balance-panic st e =
      elim (Option-cases (lookup_pair channel denom st.channel_state)) [
        | inl missing ↦ ground arith
        | inr (s, found) ↦ ground (arith, h.sub_128_lem s.outstanding amount)
      ]

  pub reduce_channel_balance-short :
      (st : State) (e : ContractError)
      → reduce_channel_balance h channel denom amount st ≡ err e
      → (lookup_pair channel denom st.channel_state ≡ none)
        ⊎ (outstanding_of channel denom st < amount)
  unfolding reduce_channel_balance
  reduce_channel_balance-short st e refused =
      elim (Option-cases (lookup_pair channel denom st.channel_state)) [
        | inl missing ↦ inl missing
        | inr (s, found) ↦ inr (ground (arith, h.sub_128_lem s.outstanding amount))
      ]

  -- What was added can be taken off.
  pub increase_channel_balance-reduce :
      (st st' : State)
      → increase_channel_balance h channel denom amount st ≡ ok st'
      → (st'' : State) × (reduce_channel_balance h channel denom amount st' ≡ ok st'')
        × (st''.allow_list ≡ st.allow_list)
        × (st''.config ≡ st.config)
        × ((c d : ℕ) → outstanding_of c d st'' ≡ outstanding_of c d st)
        × ((c d : ℕ)
            → outstanding_of c d st' ≡ outstanding_of c d st + at_pair channel denom amount c d)
  unfolding increase_channel_balance reduce_channel_balance
  increase_channel_balance-reduce st st' e =
      let s : ChannelState = or_default (lookup_pair channel denom st.channel_state) in
      let more : ChannelState = record {
        outstanding = s.outstanding + amount;
        total_sent = s.total_sent + amount;
      } in
      let less : ChannelState = record {
        outstanding = s.outstanding;
        total_sent = s.total_sent + amount;
      } in
      let all : st'
          ≡ record st { channel_state = insert_pair channel denom more st.channel_state } =
        ground (arith, h.add_128_lem s.outstanding amount, h.add_128_lem s.total_sent amount) in
      (
        record st' { channel_state = insert_pair channel denom less st'.channel_state },
        ground (
          arith,
          h.sub_128_lem (s.outstanding + amount) amount,
          lookup_pair-insert_pair channel denom channel denom more st.channel_state,
        ),
        ground arith,
        ground arith,
        λ c d. ground (
          arith,
          lookup_pair-insert_pair c d channel denom more st.channel_state,
          lookup_pair-insert_pair c d channel denom less st'.channel_state,
        ),
        λ c d. ground (arith, lookup_pair-insert_pair c d channel denom more st.channel_state),
      )

  -- What was taken off can be added again.
  pub undo_reduce_channel_balance-Lowers :
      (st st' : State)
      → Lowers channel denom amount st st'
      → outstanding_of channel denom st ≤ u128_max
      → (st'' : State) × (undo_reduce_channel_balance h channel denom amount st' ≡ ok st'')
        × ((c d : ℕ) → outstanding_of c d st'' ≡ outstanding_of c d st)
  unfolding undo_reduce_channel_balance
  undo_reduce_channel_balance-Lowers st st' low le =
      let s : ChannelState = or_default (lookup_pair channel denom st'.channel_state) in
      let more : ChannelState = record s { outstanding = s.outstanding + amount } in
      (
        record st' { channel_state = insert_pair channel denom more st'.channel_state },
        ground (arith, h.add_128_lem s.outstanding amount, low.lowered channel denom),
        λ c d. ground (
          arith,
          low.lowered c d,
          lookup_pair-insert_pair c d channel denom more st'.channel_state,
        ),
      )

-- A cw20 that the contract will send: its address is valid, and it is on the allow list or there is
-- a default gas limit.
abbrev pub IsPayable : Host → State → Addr → Type 0
IsPayable h st a =
    (h.addr_validate a ≡ ok a)
    × (((i : AllowInfo) × (lookup a st.allow_list ≡ some i))
        ⊎ ((c : Config) × (g : ℕ) × (st.config ≡ some c) × (c.default_gas_limit ≡ some g)))

-- Every cw20 that a channel has a balance of is one.
abbrev pub ArePayable : Host → Outside → State → Type 0
ArePayable h x st =
    (c d a : ℕ) (s : ChannelState)
    → lookup_pair c d st.channel_state ≡ some s
    → x.cw20_address d ≡ some a
    → IsPayable h st a

module _ (h : Host) (x : Outside) where
  same-IsPayable :
      (st st' : State) (a : ℕ)
      → st'.allow_list ≡ st.allow_list
      → st'.config ≡ st.config
      → IsPayable h st a
      → IsPayable h st' a
  same-IsPayable st st' a list config (valid, inl (i, listed)) = (valid, inl (i, ground arith))
  same-IsPayable st st' a list config (valid, inr (c, g, known, base)) =
      (valid, inr (c, g, ground arith, base))

  pub IsPayable-check_gas_limit :
      (st : State) (a n : ℕ)
      → IsPayable h st a
      → (g : Option ℕ) × (check_gas_limit h x (cw20 (record { address = a; amount = n })) st ≡ ok g)
  unfolding check_gas_limit
  IsPayable-check_gas_limit st a n (valid, inl (i, listed)) = (i.gas_limit, ground arith)
  IsPayable-check_gas_limit st a n (valid, inr (c, g, config, base)) =
      elim (Option-cases (lookup a st.allow_list)) [
        | inl unlisted ↦ (some g, ground arith)
        | inr (i, listed) ↦ (i.gas_limit, ground arith)
      ]

  pub ArePayable-check_gas_limit :
      (st st' : State) (c d n : ℕ) (s : ChannelState)
      → ArePayable h x st
      → lookup_pair c d st.channel_state ≡ some s
      → st'.allow_list ≡ st.allow_list
      → st'.config ≡ st.config
      → (g : Option ℕ) × (check_gas_limit h x (from_parts x d n) st' ≡ ok g)
  unfolding check_gas_limit from_parts
  ArePayable-check_gas_limit st st' c d n s payable found list config =
      elim (Option-cases (x.cw20_address d)) [
        | inl plain ↦ (none, ground arith)
        | inr (a, token) ↦
            let (g, known) =
              IsPayable-check_gas_limit st' a n
                (same-IsPayable st st' a list config (payable c d a s found token)) in
            (g, ground arith)
      ]
