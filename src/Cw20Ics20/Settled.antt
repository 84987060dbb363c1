-- ===== src/Cw20Ics20/Settled.antt =====
-- What the migration of contracts/cw20-ics20 does to the balances of its channel.
use cw_plus.Base.{
  ℕ, ◌+◌, ◌-◌, ◌≤◌, ◌≡◌, ◌==◌, leb, Option, none, some, [], ◌∷◌, ok, arith, inl, inr, Option-cases,
  Result-cases, Bool-cases, true, false, Bool, if◌then◌else◌, ap, ◌∙◌,
}
use cw_plus.Base.Dict.{Dict, lookup, IsMap, lookup-Above}
use cw_plus.Base.Dict.Pairs.{lookup_pair, prefix, lookup_pair-insert_pair}
use cw_plus.Host.{Host, Version}
use cw_plus.Cw20Ics20.State.{ChannelState, ChannelInfo, State, Outside, from_parts}
use cw_plus.Cw20Ics20.Migrate.{
  Chain, Stored, balance_of, update_denom, update_denoms, update_channels, convert, convert_config,
  set_gas_limit, save_version, migrate,
}

module _ (h : Host) (x : Outside) (n : Chain) (c : ℕ) where
  -- The channel `c` has the tokens that the contract holds as its balance, and what came on top is
  -- counted as sent.
  pub record IsSettled (d : ℕ) (s : ChannelState) (st' : State) : Type 0 where
    pub balance : ℕ
    pub asked : balance_of h x n (from_parts x d s.outstanding) ≡ ok balance
    pub covered : s.outstanding ≤ balance
    pub settled :
        lookup_pair c d st'.channel_state
        ≡ some (record {
          outstanding = balance;
          total_sent = s.total_sent + (balance - s.outstanding);
        })

  update_denom-IsSettled :
      (d : ℕ) (s : ChannelState) (st st' : State)
      → lookup_pair c d st.channel_state ≡ some s
      → update_denom h x n c d s st ≡ ok st'
      → IsSettled d s st'
  unfolding update_denom
  update_denom-IsSettled d s st st' found e =
      elim (Result-cases (balance_of h x n (from_parts x d s.outstanding))) [
        | inl (b, asked) ↦ record {
          balance = b;
          asked = asked;
          covered = ground (arith, h.sub_128_lem b s.outstanding);
          settled = ground (
            arith,
            h.sub_128_lem b s.outstanding,
            h.add_128_lem s.outstanding (b - s.outstanding),
            h.add_128_lem s.total_sent (b - s.outstanding),
            lookup_pair-insert_pair c d c d
                (record {
                  outstanding = s.outstanding + (b - s.outstanding);
                  total_sent = s.total_sent + (b - s.outstanding);
                })
                st.channel_state,
          );
        }
        | inr refused ↦ absurd (ground arith)
      ]

  update_denom-others :
      (d k : ℕ) (s : ChannelState) (st st' : State)
      → (k == d) ≡ false
      → update_denom h x n c d s st ≡ ok st'
      → lookup_pair c k st'.channel_state ≡ lookup_pair c k st.channel_state
  unfolding update_denom
  update_denom-others d k s st st' other e =
      elim (Result-cases (balance_of h x n (from_parts x d s.outstanding))) [
        | inl (b, asked) ↦ ground (
          arith,
          h.sub_128_lem b s.outstanding,
          h.add_128_lem s.outstanding (b - s.outstanding),
          h.add_128_lem s.total_sent (b - s.outstanding),
          lookup_pair-insert_pair c k c d
              (record {
                outstanding = s.outstanding + (b - s.outstanding);
                total_sent = s.total_sent + (b - s.outstanding);
              })
              st.channel_state,
        )
        | inr refused ↦ absurd (ground arith)
      ]

  update_denoms-others :
      (k : ℕ) (l : Dict ChannelState) (st st' : State)
      → lookup k l ≡ none
      → update_denoms h x n c l st ≡ ok st'
      → lookup_pair c k st'.channel_state ≡ lookup_pair c k st.channel_state
  unfolding update_denoms lookup
  update_denoms-others k [] st st' absent e = ground arith
  update_denoms-others k ((d, s) ∷ l) st st' absent e =
      elim (Result-cases (update_denom h x n c d s st)) [
        | inl (next, updated) ↦
            ground (arith, update_denom-others d k s st next, update_denoms-others k l next st')
        | inr refused ↦ absurd (ground arith)
      ]

  IsSettled-later :
      (d : ℕ) (s : ChannelState) (st st' : State)
      → lookup_pair c d st'.channel_state ≡ lookup_pair c d st.channel_state
      → IsSettled d s st
      → IsSettled d s st'
  IsSettled-later d s st st' same old = record {
    balance = old.balance;
    asked = old.asked;
    covered = old.covered;
    settled = same ∙ old.settled;
  }

  update_denoms-IsSettled :
      (k : ℕ) (v : ChannelState) (l : Dict ChannelState) (st st' : State)
      → IsMap l
      → lookup k l ≡ some v
      → lookup_pair c k st.channel_state ≡ some v
      → update_denoms h x n c l st ≡ ok st'
      → IsSettled k v st'
  unfolding update_denoms lookup
  update_denoms-IsSettled k v [] st st' is_map listed found e = absurd (ground arith)
  update_denoms-IsSettled k v ((d, s) ∷ l) st st' is_map listed found e =
      elim (Result-cases (update_denom h x n c d s st)) [
        | inl (next, updated) ↦ elim (Bool-cases (k == d)) [
          | inl same ↦
              IsSettled-later k v next st'
                (update_denoms-others k l next st' (ground (arith, lookup-Above k d l is_map.0))
                  (ground arith))
                (update_denom-IsSettled k v st next found (ground arith))
          | inr other ↦
              update_denoms-IsSettled k v l next st' is_map.1 (ground arith)
                (update_denom-others d k s st next other updated ∙ found) (ground arith)
        ]
        | inr refused ↦ absurd (ground arith)
      ]

  convert_config-channel_state :
      (stored : Stored) (old : Bool) (st st' : State)
      → (if old then convert_config h x n stored st else ok st) ≡ ok st'
      → (st'.channel_state ≡ st.channel_state) × (st'.channel_info ≡ st.channel_info)
  unfolding convert_config
  convert_config-channel_state stored true st st' e = elim (Result-cases stored.old_config) [
    | inl (config, read) ↦ ground arith
    | inr refused ↦ absurd (ground arith)
  ]
  convert_config-channel_state stored false st st' e = ground arith

  set_gas_limit-channel_state :
      (limit : Option ℕ) (st st' : State)
      → set_gas_limit h x n limit st ≡ ok st'
      → st'.channel_state ≡ st.channel_state
  unfolding set_gas_limit
  set_gas_limit-channel_state none st st' e = ground arith
  set_gas_limit-channel_state (some limit) st st' e = elim (Option-cases st.config) [
    | inl missing ↦ absurd (ground arith)
    | inr (config, found) ↦ ground arith
  ]

  save_version-channel_state :
      (number version : ℕ) (st : State)
      → (save_version h x n number version st).channel_state ≡ st.channel_state
  unfolding save_version
  save_version-channel_state number version st = ground arith

  convert-IsSettled :
      (stored : Stored) (number k : ℕ) (s : ChannelState) (st st' : State) (info : ChannelInfo)
      → convert h x n stored number st ≡ ok st'
      → number ≤ n.migrate_version_3
      → st.channel_info ≡ (c, info) ∷ []
      → IsMap (prefix c st.channel_state)
      → lookup_pair c k st.channel_state ≡ some s
      → IsSettled k s st'
  unfolding convert update_channels lookup_pair
  convert-IsSettled stored number k s st st' info e old one is_map found =
      elim (Result-cases
        (if leb number n.migrate_version_2 then convert_config h x n stored st else ok st)) [
          | inr refused ↦ absurd (ground arith)
          | inl (converted, conversion) ↦
              let (same, channels) =
                convert_config-channel_state stored (leb number n.migrate_version_2) st converted
                  conversion in
              update_denoms-IsSettled k s (prefix c converted.channel_state) converted st'
                (ground arith) (ground arith) (ground arith) (ground arith)
        ]

  -- A migration from a version that counted a transfer only when it was acknowledged, of a contract
  -- with one channel, leaves each denomination of that channel with what the contract holds of it
  -- as its balance, which is no less than before, and counts the difference as sent; provided that
  -- the channel's denominations are in order in the storage.
  pub migrate-IsSettled :
      (stored : Stored) (limit : Option ℕ) (st st' : State) (info : ChannelInfo) (v : Version)
      (number k : ℕ) (s : ChannelState)
      → migrate h x n stored limit st ≡ ok st'
      → st.version ≡ some v
      → n.parse v ≡ ok number
      → number ≤ n.migrate_version_3
      → st.channel_info ≡ (c, info) ∷ []
      → IsMap (prefix c st.channel_state)
      → lookup_pair c k st.channel_state ≡ some s
      → IsSettled k s st'
  unfolding migrate
  migrate-IsSettled stored limit st st' info v number k s e was parsed old one is_map found =
      elim (Result-cases (n.parse h.contract_version)) [
        | inr refused ↦ absurd (ground arith)
        | inl (version, running) ↦ elim (Result-cases (convert h x n stored number st)) [
          | inr refused ↦ absurd (ground arith)
          | inl (updated, converted) ↦ elim (Result-cases (set_gas_limit h x n limit updated)) [
            | inr refused ↦ absurd (ground arith)
            | inl (limited, set) ↦
                let saved : st' ≡ save_version h x n number version limited = ground arith in
                IsSettled-later k s updated st'
                  (ap (λ t. lookup_pair c k (State.channel_state t)) saved
                    ∙ ap (lookup_pair c k) (save_version-channel_state number version limited)
                    ∙ ap (lookup_pair c k) (set_gas_limit-channel_state limit updated limited set))
                  (convert-IsSettled stored number k s st updated info converted old one is_map
                    found)
          ]
        ]
      ]
