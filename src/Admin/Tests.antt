-- ===== src/Admin/Tests.antt =====
-- The administrator's view of the pool of the samples.
use open_mesh_ai.Prelude.{
  ◌≡◌, refl, none, some, [], ◌∷◌, pos, ◌+ℤ◌, ◌-ℤ◌, ◌*ℤ◌, inl, map, if◌then◌else◌, join, text_of,
  number_text, digit_text,
}
use open_mesh_ai.Decimal.Parse.{parse}
use open_mesh_ai.Decimal.Rounding.{round_signed, round_ceiling, round_half_even}
use open_mesh_ai.Json.{dumps, field, end, str, setdefault, get, decimal_of}
use open_mesh_ai.Db.Enums.{inference}
use open_mesh_ai.Db.Models.{Job}
use open_mesh_ai.Db.Session.{Db}
use open_mesh_ai.Dispatch.Queueing.{create_queued_job}
use open_mesh_ai.Finance.Accounts.{create_ledger_entry, get_or_create_account}
use open_mesh_ai.Finance.Accounting.{apply_job_verification_accounting, posting_of, settle}
use open_mesh_ai.Finance.Pricing.{
  active_pricing_rule, newest, job_cost, fee_of, estimate_payload_units, units_of_chars,
}
use open_mesh_ai.Samples.{
  running_pool, handed_out, good_result, owner, buyer, gpu, worker_with, pool_with,
}
use open_mesh_ai.Api.Reply.{ok, refused, server_error}
use open_mesh_ai.Api.Users.{require_roles}
use open_mesh_ai.Api.Jobs.{is_given_to}
use open_mesh_ai.Admin.Workers.{worker_item, worker_items}
use open_mesh_ai.Admin.Actions.{list_workers_admin, enqueue_from}
use open_mesh_ai.Admin.Leaderboard.{leaderboard, earned}
use open_mesh_ai.Admin.Grows.{reward_of, accounting-earned}

abbrev settled_pool : Db
settled_pool = apply_job_verification_accounting 20 handed_out good_result running_pool

settled-leaderboard :
    leaderboard owner settled_pool
    ≡ ok (
        record {
          worker_id = 7;
          worker_name = "gpu-7";
          owner_user_id = 2;
          tokens_earned = pos 285_000_000;
        }
        ∷ [])
unfolding leaderboard require_roles apply_job_verification_accounting posting_of active_pricing_rule
    newest settle create_ledger_entry get_or_create_account ◌+ℤ◌ job_cost fee_of ◌-ℤ◌ ◌*ℤ◌
    round_signed estimate_payload_units units_of_chars round_ceiling dumps round_half_even
settled-leaderboard = refl

accounting-earned_example :
    earned 7 settled_pool.ledger settled_pool.assignments
    ≡ earned 7 running_pool.ledger running_pool.assignments
      +ℤ (if is_given_to 7 handed_out
          then reward_of (posting_of handed_out good_result running_pool)
          else pos 0)
accounting-earned_example =
    accounting-earned 7 20 handed_out good_result running_pool (tt, tt) (inl refl)

-- A client is no administrator.
client-list_workers_admin : list_workers_admin buyer running_pool ≡ refused 403 "Insufficient role"
unfolding list_workers_admin require_roles
client-list_workers_admin = refl

-- One worker whose reputation is a word hides all workers.
word-list_workers_admin :
    list_workers_admin owner
      (pool_with (gpu ∷ worker_with (field "reputation" (str "good") end) ∷ []) [] [] [])
    ≡ server_error
unfolding list_workers_admin require_roles worker_items worker_item get decimal_of parse
word-list_workers_admin = refl

two_demos :
    map
      (λ (j : Job). get "prompt" j.payload)
      (enqueue_from (λ d. "1.0") inference 0 0 2 running_pool).jobs
    ≡ none ∷ some (str "demo-job-1") ∷ some (str "demo-job-2") ∷ []
unfolding create_queued_job join text_of number_text digit_text get setdefault
two_demos = refl
