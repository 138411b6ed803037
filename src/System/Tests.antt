-- ===== src/System/Tests.antt =====
-- The theorem on reachable states at a submission, a round of the dispatcher and a demonstration.
use open_mesh_ai.Prelude.{List, ◌++◌, pos, true, ◌≡◌}
use open_mesh_ai.Db.Models.{LedgerEntry}
use open_mesh_ai.Finance.Accounts.{sum_amounts}
use open_mesh_ai.Finance.Balance.{IsBalanced}
use open_mesh_ai.Finance.Tests.{running_pool-IsBalanced}
use open_mesh_ai.Api.Submit.{App}
use open_mesh_ai.Api.Tests.{request, app, trusting}
use open_mesh_ai.Seeds.Tests.{plain}
use open_mesh_ai.Dispatch.Assign.{dispatch_round}
use open_mesh_ai.Samples.{owner, whole_floats}
use open_mesh_ai.Api.Submit.{submit_job}
use open_mesh_ai.System.Steps.{on, Reach, here, next, submits, dispatches}
use open_mesh_ai.System.Minted.{is_other}
use open_mesh_ai.System.Reachable.{Reach-IsBalanced, Reach-ledger}

abbrev submitted : App
submitted = (submit_job whole_floats trusting 20 20 "n2" true owner request app).1

abbrev dispatched : App
dispatched = on (dispatch_round 21 (λ i. "n3") submitted.db) submitted

two_steps : Reach whole_floats plain trusting app dispatched
two_steps =
    next (next here (submits app 20 20 "n2" true owner request))
      (dispatches submitted 21 (λ i. "n3"))

Reach-IsBalanced_example : IsBalanced dispatched.db
Reach-IsBalanced_example =
    Reach-IsBalanced whole_floats plain trusting running_pool-IsBalanced two_steps

Reach-ledger_example :
    (new : List LedgerEntry) × (dispatched.db.ledger ≡ app.db.ledger ++ new)
    × (sum_amounts is_other new ≡ pos 0)
Reach-ledger_example = Reach-ledger whole_floats plain trusting two_steps
