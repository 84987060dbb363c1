-- ===== src/Cw1Whitelist/Proxy.antt =====
-- Who gets messages sent by contracts/cw1-whitelist, and who changes its list.
use cw_plus.Base.{
  ℕ, ◌≡◌, ◌⊎◌, Bool, true, false, some, List, ok, err, arith, refl, inl, inr, if◌then◌else◌,
  Option-cases,
}
use cw_plus.Host.{Host, CosmosMsg, Env, MessageInfo}
use cw_plus.Cw1Whitelist.State.{AdminList, State, ExecuteMsg, freeze, update_admins, unauthorized}
use cw_plus.Cw1Whitelist.Handlers.{
  can_execute, can_modify, is_admin, execute, execute_execute, execute_freeze,
  execute_update_admins, query_can_execute,
}

-- What `CanExecute` answers is what `Execute` does: on yes the messages are sent as they are and
-- the storage stays, on no the call is refused as unauthorized.
pub query_can_execute_lem :
    (h : Host) (env : Env) (info : MessageInfo) (msg : CosmosMsg) (msgs : List CosmosMsg)
    (st : State) (b : Bool)
    → query_can_execute st info.sender msg ≡ ok b
    → execute h env info (ExecuteMsg.execute msgs) st
      ≡ (if b then ok (st, msgs) else err unauthorized)
unfolding query_can_execute execute execute_execute
query_can_execute_lem h env info msg msgs st b e = ground arith

-- The list of admins is stored and may be changed by the sender.
abbrev pub MayModify : State → ℕ → Type 0
MayModify st sender =
    (cfg : AdminList) × (st.admin_list ≡ some cfg)
    × (cfg.mutable ≡ true)
    × (is_admin cfg sender ≡ true)

-- A message that is handled is an admin's, and it leaves the storage alone unless the list was
-- mutable.
pub execute-MayModify :
    (h : Host) (env : Env) (info : MessageInfo) (msg : ExecuteMsg) (st st' : State)
    (ms : List CosmosMsg)
    → execute h env info msg st ≡ ok (st', ms)
    → ((st' ≡ st) × (can_execute st info.sender ≡ ok true)) ⊎ MayModify st info.sender
unfolding execute execute_execute execute_freeze execute_update_admins can_modify
execute-MayModify h env info (ExecuteMsg.execute msgs) st st' ms e = inl (ground arith)
execute-MayModify h env info freeze st st' ms e = elim (Option-cases st.admin_list) [
  | inl missing ↦ absurd (ground arith)
  | inr (cfg, found) ↦ inr (cfg, found, ground arith, ground arith)
]
execute-MayModify h env info (update_admins admins) st st' ms e =
    elim (Option-cases st.admin_list) [
      | inl missing ↦ absurd (ground arith)
      | inr (cfg, found) ↦ inr (cfg, found, ground arith, ground arith)
    ]

-- Handled messages, one after the other.
pub data Runs (h : Host) : State → State → Type 0 where
  stop : (st : State) → Runs h st st
  step :
      (env : Env) (info : MessageInfo) (msg : ExecuteMsg) (st st' st'' : State)
      (ms : List CosmosMsg)
      → execute h env info msg st ≡ ok (st', ms)
      → Runs h st' st''
      → Runs h st st''

-- A list that is frozen never changes again, whoever sends whatever messages.
pub Runs-frozen :
    (h : Host) (cfg : AdminList) (st st' : State)
    → st.admin_list ≡ some cfg
    → cfg.mutable ≡ false
    → Runs h st st'
    → st' ≡ st
Runs-frozen h cfg st st' found frozen (stop _) = refl
Runs-frozen h cfg st st' found frozen (step env info msg _ next _ ms e rest) =
    elim (execute-MayModify h env info msg st next ms e) [
      | inl (same, can) ↦ ground (arith, Runs-frozen h cfg next st' (ground arith) frozen rest)
      | inr (cfg', found', open_list, admin) ↦ absurd (ground arith)
    ]
