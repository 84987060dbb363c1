-- ===== src/Cw1Whitelist/Handlers.antt =====
-- contracts/cw1-whitelist/src/contract.rs, and the tests of an `AdminList`.
use cw_plus.Base.{
  ◌==◌, ◌&&◌, ◌||◌, Bool, false, some, List, [], ◌∷◌, Result, ok, ◌>>=◌, ◌>>◌, ok_or, map_err,
  ensure,
}
use cw_plus.Host.{Host, Text, Addr, StdError, CosmosMsg, Env, MessageInfo}
use cw_plus.Cw1Whitelist.State.{
  AdminList, State, InstantiateMsg, ExecuteMsg, freeze, update_admins, std, unauthorized, Outcome,
}

-- `self.admins.iter().any(|a| a.as_ref() == addr)`
unfoldable pub is_among : Addr → List Addr → Bool
is_among addr [] = false
is_among addr (a ∷ admins) = a == addr || is_among addr admins

-- `AdminList::is_admin` and `AdminList::can_modify`
unfoldable pub is_admin : AdminList → Addr → Bool
is_admin cfg addr = is_among addr cfg.admins

unfoldable pub can_modify : AdminList → Addr → Bool
can_modify cfg addr = cfg.mutable && is_admin cfg addr

unfoldable pub map_validate : Host → List Text → Result StdError (List Addr)
map_validate h [] = ok []
map_validate h (admin ∷ admins) = do
  addr ← h.addr_validate admin
  addrs ← map_validate h admins
  ok (addr ∷ addrs)

unfoldable pub instantiate : Host → InstantiateMsg → Result StdError State
instantiate h msg = do
  admins ← map_validate h msg.admins
  ok (record {
    version = some h.contract_version;
    admin_list = some (record { admins = admins; mutable = msg.mutable });
  })

unfoldable pub can_execute : State → Addr → Result StdError Bool
can_execute st sender = do cfg ← ok_or st.admin_list StdError.not_found; ok (is_admin cfg sender)

unfoldable pub execute_execute : Env → MessageInfo → List CosmosMsg → State → Outcome
execute_execute env info msgs st = do
  can ← map_err std (can_execute st info.sender)
  ensure can unauthorized
  ok (st, msgs)

unfoldable pub execute_freeze : Env → MessageInfo → State → Outcome
execute_freeze env info st = do
  cfg ← ok_or st.admin_list (std StdError.not_found)
  ensure (can_modify cfg info.sender) unauthorized
  ok (record st { admin_list = some (record cfg { mutable = false }) }, [])

unfoldable pub execute_update_admins : Host → Env → MessageInfo → List Text → State → Outcome
execute_update_admins h env info admins st = do
  cfg ← ok_or st.admin_list (std StdError.not_found)
  ensure (can_modify cfg info.sender) unauthorized
  addrs ← map_err std (map_validate h admins)
  ok (record st { admin_list = some (record cfg { admins = addrs }) }, [])

unfoldable pub execute : Host → Env → MessageInfo → ExecuteMsg → State → Outcome
execute h env info (ExecuteMsg.execute msgs) st = execute_execute env info msgs st
execute h env info freeze st = execute_freeze env info st
execute h env info (update_admins admins) st = execute_update_admins h env info admins st

unfoldable pub query_admin_list : State → Result StdError AdminList
query_admin_list st = ok_or st.admin_list StdError.not_found

unfoldable pub query_can_execute : State → Text → CosmosMsg → Result StdError Bool
query_can_execute st sender msg = can_execute st sender
