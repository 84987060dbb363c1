-- ===== src/Cw20Base/Mirror.antt =====
-- The two maps of allowances hold the same entries, by owner and by spender.
use cw_plus.Base.{ℕ, ◌≡◌, List, ok, arith, inl, inr, subst, refl}
use cw_plus.Base.Dict.{Dict}
use cw_plus.Base.Dict.Pairs.{
  lookup_pair, insert_pair, erase_pair, ArePrefixes, lookup_pair-insert_pair,
  lookup_pair-erase_pair, insert_pair-ArePrefixes, erase_pair-ArePrefixes,
}
use cw_plus.Host.{Host, Env, MessageInfo}
use cw_plus.Cw20.{
  AllowanceResponse, Cw20ReceiveMsg, Cw20ExecuteMsg, transfer, burn, send, increase_allowance,
  decrease_allowance, transfer_from, send_from, burn_from, mint, update_minter, update_marketing,
  upload_logo,
}
use cw_plus.Cw20Base.State.{State}
use cw_plus.Cw20Base.Transfer.{move_tokens, reduce_supply, execute_update_minter}
use cw_plus.Cw20Base.Allowances.{deduct_allowance}
use cw_plus.Cw20Base.Marketing.{execute_update_marketing, execute_upload_logo}
use cw_plus.Cw20Base.Execute.{execute}
use cw_plus.Cw20Base.Steps.{
  transfer_steps, send_steps, burn_steps, mint_steps, transfer_from_steps, send_from_steps,
  burn_from_steps, deduct_steps, increase_steps, decrease_steps,
}

abbrev pub Allowances : Type 0
Allowances = Dict (Dict AllowanceResponse)

abbrev pub AreMirrored : Allowances → Allowances → Type 0
AreMirrored m w = (o s : ℕ) → lookup_pair o s m ≡ lookup_pair s o w

pub record IsMirrored (st : State) : Type 0 where
  pub owners : ArePrefixes st.allowances
  pub spenders : ArePrefixes st.allowances_spender
  pub mirrored : AreMirrored st.allowances st.allowances_spender

pub insert-AreMirrored :
    (o s : ℕ) (a : AllowanceResponse) (m w : Allowances)
    → AreMirrored m w
    → AreMirrored (insert_pair o s a m) (insert_pair s o a w)
insert-AreMirrored o s a m w h p q =
    ground (arith, h p q, lookup_pair-insert_pair p q o s a m, lookup_pair-insert_pair q p s o a w)

erase-AreMirrored :
    (o s : ℕ) (m w : Allowances)
    → ArePrefixes m
    → ArePrefixes w
    → AreMirrored m w
    → AreMirrored (erase_pair o s m) (erase_pair s o w)
erase-AreMirrored o s m w hm hw h p q =
    ground (
      arith,
      h p q,
      lookup_pair-erase_pair p q o s m (hm o),
      lookup_pair-erase_pair q p s o w (hw s),
    )

-- A step that saves one allowance in both maps.
save-IsMirrored :
    (o s : ℕ) (one two : AllowanceResponse) (st : State)
    → IsMirrored st
    → one ≡ two
    → IsMirrored (record st {
      allowances = insert_pair o s one st.allowances;
      allowances_spender = insert_pair s o two st.allowances_spender;
    })
save-IsMirrored o s one two st good e = record {
  owners = insert_pair-ArePrefixes o s one st.allowances good.owners;
  spenders = insert_pair-ArePrefixes s o two st.allowances_spender good.spenders;
  mirrored =
      subst
        (λ t.
          AreMirrored (insert_pair o s one st.allowances) (insert_pair s o t st.allowances_spender))
        e (insert-AreMirrored o s one st.allowances st.allowances_spender good.mirrored);
}

remove-IsMirrored :
    (o s : ℕ) (st : State)
    → IsMirrored st
    → IsMirrored (record st {
      allowances = erase_pair o s st.allowances;
      allowances_spender = erase_pair s o st.allowances_spender;
    })
remove-IsMirrored o s st good = record {
  owners = erase_pair-ArePrefixes o s st.allowances good.owners;
  spenders = erase_pair-ArePrefixes s o st.allowances_spender good.spenders;
  mirrored =
      erase-AreMirrored o s st.allowances st.allowances_spender good.owners good.spenders
        good.mirrored;
}

-- A step that leaves both maps alone.
abbrev pub SameAllowances : State → State → Type 0
SameAllowances st st' =
    (st'.allowances ≡ st.allowances) × (st'.allowances_spender ≡ st.allowances_spender)

same-IsMirrored : (st st' : State) → IsMirrored st → SameAllowances st st' → IsMirrored st'
same-IsMirrored st st' good (e, f) = record {
  owners = λ k. rw e (good.owners k);
  spenders = λ k. rw f (good.spenders k);
  mirrored = λ o s. rw (e, f) (good.mirrored o s);
}

module _ (h : Host) (env : Env) (info : MessageInfo) (st st' : State) (ms : List Cw20ReceiveMsg)
    (good : IsMirrored st) where
  moved-IsMirrored : (from to x : ℕ) → move_tokens h from to x st ≡ ok st' → IsMirrored st'
  unfolding move_tokens
  moved-IsMirrored from to x e = same-IsMirrored st st' good (ground arith, ground arith)

  reduced-IsMirrored :
      (x : ℕ) (b : Dict ℕ)
      → reduce_supply h x (record st { balances = b }) ≡ ok st'
      → IsMirrored st'
  unfolding reduce_supply
  reduced-IsMirrored x b e = same-IsMirrored st st' good (ground arith, ground arith)

  deducted-IsMirrored :
      (o s x : ℕ) → deduct_allowance h o s env.block x st ≡ ok st' → IsMirrored st'
  deducted-IsMirrored o s x e =
      let (one, two, e1, e2, e') = deduct_steps h env info st st' ms o s x e in
      rw e' (save-IsMirrored o s one two st good (ground (arith, good.mirrored o s)))

module _ (h : Host) (env : Env) (info : MessageInfo) (st st' : State) (ms : List Cw20ReceiveMsg)
    (good : IsMirrored st) where
  -- A message that is handled keeps the two maps of allowances equal entry by entry.
  pub execute-IsMirrored :
      (msg : Cw20ExecuteMsg) → execute h env info msg st ≡ ok (st', ms) → IsMirrored st'
  unfolding execute
  execute-IsMirrored (transfer to x) e =
      let (a, va, m) = transfer_steps h env info st st' ms to x e in
      moved-IsMirrored h env info st st' ms good info.sender a x m
  execute-IsMirrored (burn x) e =
      let (le, r) = burn_steps h env info st st' ms x e in
      reduced-IsMirrored h env info st st' ms good x _ r
  execute-IsMirrored (send to x msg) e =
      let (a, va, m) = send_steps h env info st st' ms to x msg e in
      moved-IsMirrored h env info st st' ms good info.sender a x m
  execute-IsMirrored (mint to x) e =
      let (t, m, a, n, b, et, em, es, en, cap, va, eb, e') =
        mint_steps h env info st st' ms to x e in
      same-IsMirrored st st' good (ground arith, ground arith)
  execute-IsMirrored (increase_allowance s x exp) e =
      let (a, one, two, v, n, e1, e2, e') = increase_steps h env info st st' ms s x exp e in
      rw e' (
        save-IsMirrored info.sender a one two st good (ground (arith, good.mirrored info.sender a)))
  execute-IsMirrored (decrease_allowance s x exp) e =
      let (a, old, v, n, e1, e') = decrease_steps h env info st st' ms s x exp e in
      elim e' [
        | inl (new, lt, low, e'') ↦ rw e'' (save-IsMirrored info.sender a new new st good refl)
        | inr (ge, e'') ↦ rw e'' (remove-IsMirrored info.sender a st good)
      ]
  execute-IsMirrored (transfer_from owner to x) e =
      let (a, o, d, va, vo, c, m) = transfer_from_steps h env info st st' ms owner to x e in
      moved-IsMirrored h env info d st' ms
        (deducted-IsMirrored h env info st d ms good o info.sender x c) o a x m
  execute-IsMirrored (burn_from owner x) e =
      let (o, d, vo, c, b, le, r) = burn_from_steps h env info st st' ms owner x e in
      reduced-IsMirrored h env info d st' ms
        (deducted-IsMirrored h env info st d ms good o info.sender x c) x _ r
  execute-IsMirrored (send_from owner to x msg) e =
      let (a, o, d, va, vo, c, m) = send_from_steps h env info st st' ms owner to x msg e in
      moved-IsMirrored h env info d st' ms
        (deducted-IsMirrored h env info st d ms good o info.sender x c) o a x m
  execute-IsMirrored (update_marketing p d m) e =
      unfold execute_update_marketing in same-IsMirrored st st' good (ground arith, ground arith)
  execute-IsMirrored (upload_logo logo) e =
      unfold execute_upload_logo in same-IsMirrored st st' good (ground arith, ground arith)
  execute-IsMirrored (update_minter new) e =
      unfold execute_update_minter in same-IsMirrored st st' good (ground arith, ground arith)
