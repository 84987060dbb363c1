-- ===== src/Tests/Proxy.antt =====
-- contracts/cw1-whitelist with two admins.
use cw_plus.Base.{◌≡◌, Bool, true, false, some, [], ◌∷◌, ok, refl}
use cw_plus.Cw1Whitelist.State.{AdminList, State, ExecuteMsg, freeze}
use cw_plus.Cw1Whitelist.Handlers.{
  execute, execute_execute, execute_freeze, can_execute, can_modify, is_admin, is_among,
  query_can_execute,
}
use cw_plus.Cw1Whitelist.Proxy.{Runs, stop, step, Runs-frozen}
use cw_plus.Tests.{plain_host, at, from}

abbrev list : Bool → AdminList
list mutable = record { admins = 3 ∷ 5 ∷ []; mutable = mutable }

abbrev proxy : Bool → State
proxy mutable = record { version = some 20; admin_list = some (list mutable) }

answer : query_can_execute (proxy false) 5 88 ≡ ok true
unfolding query_can_execute can_execute is_admin is_among
answer = refl

freeze_run : execute plain_host (at 2) (from 3) freeze (proxy true) ≡ ok (proxy false, [])
unfolding execute execute_freeze can_modify is_admin is_among
freeze_run = refl

send_run :
    execute plain_host (at 4) (from 5) (ExecuteMsg.execute (88 ∷ [])) (proxy false)
    ≡ ok (proxy false, 88 ∷ [])
unfolding execute execute_execute can_execute is_admin is_among
send_run = refl

sends : Runs plain_host (proxy false) (proxy false)
sends =
    step (at 4) (from 5) (ExecuteMsg.execute (88 ∷ [])) (proxy false) (proxy false) (proxy false)
      (88 ∷ []) send_run (stop (proxy false))

Runs-frozen_example : proxy false ≡ proxy false
Runs-frozen_example =
    Runs-frozen plain_host (list false) (proxy false) (proxy false) refl refl sends
