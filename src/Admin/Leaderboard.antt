-- ===== src/Admin/Leaderboard.antt =====
-- `leaderboard` of api/admin.py: the workers by the rewards of their assignments.
use open_mesh_ai.Prelude.{
  ℕ, Bool, false, ◌&&◌, ◌||◌, none, some, List, [], ◌∷◌, String, ℤ, pos, ◌+ℤ◌, ltb_ℤ, leb_ℤ, ltb,
  ◌==◌, str_eq, map, if◌then◌else◌,
}
use open_mesh_ai.Db.Enums.{worker_owner}
use open_mesh_ai.Db.Models.{User, Worker, Assignment, LedgerEntry}
use open_mesh_ai.Db.Session.{Db}
use open_mesh_ai.Finance.Accounts.{sum_amounts}
use open_mesh_ai.Api.Reply.{Reply, ok, ◌>>=◌}
use open_mesh_ai.Api.Users.{require_roles}
use open_mesh_ai.Api.Jobs.{is_given_to}

-- `entry_type == "worker_reward"` on an assignment's entries
abbrev pub is_reward_of : ℕ → LedgerEntry → Bool
is_reward_of i e =
    (elim e.assignment_id [ none ↦ false | some j ↦ j == i ]) && str_eq e.entry_type "worker_reward"

-- The sum over the outer join of a worker's assignments with their rewards.
abbrev pub earned : ℕ → List LedgerEntry → List Assignment → ℤ
earned i ledger [] = pos 0
earned i ledger (a ∷ rows) =
    (if is_given_to i a then sum_amounts (is_reward_of a.id) ledger else pos 0)
    +ℤ earned i ledger rows

pub record LeaderboardItem : Type 0 where
  pub worker_id : ℕ
  pub worker_name : String
  pub owner_user_id : ℕ
  pub tokens_earned : ℤ

abbrev pub leaderboard_item : Db → Worker → LeaderboardItem
leaderboard_item db w = record {
  worker_id = w.id;
  worker_name = w.name;
  owner_user_id = w.owner_user_id;
  tokens_earned = earned w.id db.ledger db.assignments;
}

-- `ORDER BY` the sum `DESC, id ASC`
abbrev pub is_ahead : LeaderboardItem → LeaderboardItem → Bool
is_ahead r s =
    ltb_ℤ s.tokens_earned r.tokens_earned
    || (leb_ℤ s.tokens_earned r.tokens_earned && ltb r.worker_id s.worker_id)

abbrev pub place : LeaderboardItem → List LeaderboardItem → List LeaderboardItem
place r [] = r ∷ []
place r (s ∷ rows) = let rest = place r rows in if is_ahead s r then s ∷ rest else r ∷ s ∷ rows

abbrev pub ranked : List LeaderboardItem → List LeaderboardItem
ranked [] = []
ranked (r ∷ rows) = place r (ranked rows)

unfoldable pub leaderboard : User → Db → Reply (List LeaderboardItem)
leaderboard current_user db = do
  admin ← require_roles (worker_owner ∷ []) current_user
  ok (ranked (map (leaderboard_item db) db.workers))
