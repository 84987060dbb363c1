-- ===== src/Cw20Base/Holders.antt =====
-- What a message does to the accounts: its sender can take from another account only what that
-- account has allowed, and a transfer moves the stated amount.
use cw_plus.Base.{
  Bool-cases, ◌⊎◌, leb, ℕ, ◌+◌, ◌-◌, ◌≤◌, ◌<◌, ◌≡◌, ◌≢◌, ◌==◌, List, [], ok, err, arith, inl, inr,
  if◌then◌else◌, refl, Option-cases,
}
use cw_plus.Base.Dict.Sum.{measure}
use cw_plus.Base.Dict.Pairs.{lookup_pair, lookup_pair-insert_pair, lookup_pair-erase_pair_ne}
use cw_plus.Host.{Host, Env, MessageInfo, Text, StdError}
use cw_plus.Cw20.{
  AllowanceResponse, Cw20ReceiveMsg, Cw20ExecuteMsg, transfer, burn, send, increase_allowance,
  decrease_allowance, transfer_from, send_from, burn_from, mint, update_minter, update_marketing,
  upload_logo,
}
use cw_plus.Cw20Base.State.{State, std, balance_of}
use cw_plus.Cw20Base.Transfer.{move_tokens, reduce_supply, execute_transfer, execute_update_minter}
use cw_plus.Cw20Base.Allowances.{deduct, deduct_allowance}
use cw_plus.Cw20Base.Marketing.{execute_update_marketing, execute_upload_logo}
use cw_plus.Cw20Base.Execute.{execute}
use cw_plus.Cw20Base.Ledger.{
  IsBacked, lowered, moved, credit_lem, move_tokens-moved, balance_of-moved, balance_of-insert,
}
use cw_plus.Cw20Base.Backed.{deducted-IsBacked}
use cw_plus.Cw20Base.Steps.{
  transfer_steps, send_steps, burn_steps, mint_steps, transfer_from_steps, send_from_steps,
  burn_from_steps, deduct_steps, increase_steps, decrease_steps,
}

-- What `owner` allows `spender` to take, 0 without an entry.
abbrev pub allowance_of : ℕ → ℕ → State → ℕ
allowance_of owner spender st =
    measure (λ (a : AllowanceResponse). a.allowance) (lookup_pair owner spender st.allowances)

-- What `k` lost from one state to the next is at most what `s` used up of its allowance.
abbrev pub TakesAtMost : ℕ → ℕ → State → State → Type 0
TakesAtMost k s st st' =
    balance_of k st.balances + allowance_of k s st'
    ≤ balance_of k st'.balances + allowance_of k s st

module _ (h : Host) (env : Env) (info : MessageInfo) (st st' : State) (ms : List Cw20ReceiveMsg)
    (good : IsBacked st) where
  moved-others :
      (k from to x : ℕ)
      → k ≢ from
      → move_tokens h from to x st ≡ ok st'
      → (balance_of k st.balances ≤ balance_of k st'.balances) × (st'.allowances ≡ st.allowances)
  moved-others k from to x ne e =
      ground
        (arith, move_tokens-moved h from to x st good, balance_of-moved k from to x st.balances)

  moved-loss :
      (k from to x : ℕ)
      → move_tokens h from to x st ≡ ok st'
      → (balance_of k st.balances ≤ balance_of k st'.balances + x)
        × (st'.allowances ≡ st.allowances)
  moved-loss k from to x e =
      ground
        (arith, move_tokens-moved h from to x st good, balance_of-moved k from to x st.balances)

  reduced-loss :
      (k from x : ℕ)
      → reduce_supply h x (record st { balances = lowered from x st.balances }) ≡ ok st'
      → (balance_of k st.balances ≤ balance_of k st'.balances + x)
        × (k ≢ from → balance_of k st.balances ≤ balance_of k st'.balances)
        × (st'.allowances ≡ st.allowances)
  unfolding reduce_supply
  reduced-loss k from x e =
      ground (arith, balance_of-insert k from (balance_of from st.balances - x) st.balances)

  -- A deduction uses up the amount of the owner's allowance, and touches no other.
  deducted-allowance :
      (k o x : ℕ)
      → deduct_allowance h o info.sender env.block x st ≡ ok st'
      → (st'.balances ≡ st.balances)
        × (allowance_of k info.sender st' + (if k == o then x else 0)
            ≡ allowance_of k info.sender st)
  unfolding deduct
  deducted-allowance k o x e =
      let (one, two, e1, e2, e') = deduct_steps h env info st st' ms o info.sender x e in
      elim (Option-cases (lookup_pair o info.sender st.allowances)) [
        | inl missing ↦ absurd (ground arith)
        | inr (a, found) ↦ ground (
          arith,
          h.sub_128_lem a.allowance x,
          lookup_pair-insert_pair k info.sender o info.sender one st.allowances,
        )
      ]

module _ (h : Host) (env : Env) (info : MessageInfo) (st st' : State) (ms : List Cw20ReceiveMsg)
    (good : IsBacked st) (k : ℕ) (other : k ≢ info.sender) where
  own_move :
      (a x : ℕ) → move_tokens h info.sender a x st ≡ ok st' → TakesAtMost k info.sender st st'
  own_move a x m = ground (arith, moved-others h env info st st' ms good k info.sender a x other m)

  move_after :
      (o a x : ℕ) (d : State)
      → deduct_allowance h o info.sender env.block x st ≡ ok d
      → move_tokens h o a x d ≡ ok st'
      → TakesAtMost k info.sender st st'
  move_after o a x d c m =
      let backed : IsBacked d = deducted-IsBacked h env info st st' ms good o info.sender x d c in
      ground (
        arith,
        deducted-allowance h env info st d ms good k o x c,
        moved-others h env info d st' ms backed k o a x,
        moved-loss h env info d st' ms backed k o a x m,
      )

  burn_after :
      (o x : ℕ) (d : State)
      → deduct_allowance h o info.sender env.block x st ≡ ok d
      → reduce_supply h x (record d { balances = lowered o x d.balances }) ≡ ok st'
      → TakesAtMost k info.sender st st'
  burn_after o x d c r =
      let backed : IsBacked d = deducted-IsBacked h env info st st' ms good o info.sender x d c in
      ground (
        arith,
        deducted-allowance h env info st d ms good k o x c,
        reduced-loss h env info d st' ms backed k o x r,
      )

  -- Whatever message a sender gets handled, another account loses at most what the sender's
  -- allowance from that account goes down by.
  pub execute-TakesAtMost :
      (msg : Cw20ExecuteMsg)
      → execute h env info msg st ≡ ok (st', ms)
      → TakesAtMost k info.sender st st'
  unfolding execute
  execute-TakesAtMost (transfer to x) e =
      let (a, va, m) = transfer_steps h env info st st' ms to x e in own_move a x m
  execute-TakesAtMost (burn x) e =
      let (le, r) = burn_steps h env info st st' ms x e in
      ground (arith, reduced-loss h env info st st' ms good k info.sender x r)
  execute-TakesAtMost (send to x msg) e =
      let (a, va, m) = send_steps h env info st st' ms to x msg e in own_move a x m
  execute-TakesAtMost (mint to x) e =
      let (t, m, a, n, b, et, em, es, en, cap, va, eb, e') =
        mint_steps h env info st st' ms to x e in
      ground (
        arith,
        credit_lem h a x st.balances,
        balance_of-insert k a (balance_of a st.balances + x) st.balances,
      )
  execute-TakesAtMost (increase_allowance s x exp) e =
      let (a, one, two, v, n, e1, e2, e') = increase_steps h env info st st' ms s x exp e in
      ground (arith, lookup_pair-insert_pair k info.sender info.sender a one st.allowances)
  execute-TakesAtMost (decrease_allowance s x exp) e =
      let (a, old, v, n, e1, e') = decrease_steps h env info st st' ms s x exp e in
      elim e' [
        | inl (new, lt, low, e'') ↦
            ground (arith, lookup_pair-insert_pair k info.sender info.sender a new st.allowances)
        | inr (ge, e'') ↦
            ground
              (arith, lookup_pair-erase_pair_ne k info.sender info.sender a st.allowances other)
      ]
  execute-TakesAtMost (transfer_from owner to x) e =
      let (a, o, d, va, vo, c, m) = transfer_from_steps h env info st st' ms owner to x e in
      move_after o a x d c m
  execute-TakesAtMost (burn_from owner x) e =
      let (o, d, vo, c, b, le, r) = burn_from_steps h env info st st' ms owner x e in
      burn_after o x d c r
  execute-TakesAtMost (send_from owner to x msg) e =
      let (a, o, d, va, vo, c, m) = send_from_steps h env info st st' ms owner to x msg e in
      move_after o a x d c m
  execute-TakesAtMost (update_marketing p d m) e = unfold execute_update_marketing in ground arith
  execute-TakesAtMost (upload_logo logo) e = unfold execute_upload_logo in ground arith
  execute-TakesAtMost (update_minter new) e = unfold execute_update_minter in ground arith

-- With balances that add up to the supply, a transfer to a valid address returns without a message
-- when the sender has the amount, and then takes it from the sender's balance, adds it to the
-- recipient's and leaves all else alone; it is refused as an overflow when the sender has less.
pub execute_transfer_lem :
    (h : Host) (env : Env) (info : MessageInfo) (to : Text) (a x : ℕ) (st : State)
    → IsBacked st
    → h.addr_validate to ≡ ok a
    → ((x ≤ balance_of info.sender st.balances)
        × (st' : State) × (execute_transfer h env info to x st ≡ ok (st', []))
        × (st' ≡ record st { balances = st'.balances })
        × ((k : ℕ)
            → balance_of k st'.balances + (if k == info.sender then x else 0)
              ≡ balance_of k st.balances + (if k == a then x else 0)))
      ⊎ ((balance_of info.sender st.balances < x)
          × (execute_transfer h env info to x st ≡ err (std StdError.overflow)))
unfolding execute_transfer
execute_transfer_lem h env info to a x st good v =
    elim (Bool-cases (leb x (balance_of info.sender st.balances))) [
      | inl enough ↦
          let le : x ≤ balance_of info.sender st.balances = ground arith in
          inl (
            le,
            record st { balances = moved info.sender a x st.balances },
            ground (arith, move_tokens-moved h info.sender a x st good),
            refl,
            λ k. balance_of-moved k info.sender a x st.balances le,
          )
      | inr short ↦ inr (ground arith, ground (arith, move_tokens-moved h info.sender a x st good))
    ]
