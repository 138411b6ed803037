-- ===== src/Seeds/Prices.antt =====
-- What the rules of seeds.py charge for.
use open_mesh_ai.Prelude.{
  ℕ, ◌≡◌, ◌≢◌, refl, not, Option, none, some, [], ℤ, pos, ap, sym, ◌∙◌, is_some, find_by,
  >>=-eq-some, some_inj, require,
}
use open_mesh_ai.Db.Enums.{
  JobType, inference, fine_tuning, embedding, is_verified, is_void_assignment, is_void_job,
}
use open_mesh_ai.Db.Models.{Job, Assignment, SubmissionResult, PricingRule}
use open_mesh_ai.Db.Session.{Db, job_by_id}
use open_mesh_ai.Finance.Pricing.{estimate_payload_units, active_pricing_rule, newest, job_cost}
use open_mesh_ai.Finance.Accounting.{Posting, posting_of, worker_of, is_charge_of}
use open_mesh_ai.Seeds.Defaults.{default_pricing_rules, upsert_rules, upsert_rule}

-- A charge is for the job of the assignment, by the rule of its type.
posting_of-priced :
    (a : Assignment) (r : SubmissionResult) (db : Db) (p : Posting)
    → posting_of a r db ≡ some p
    → (j : Job) × (rule : PricingRule) × (job_by_id a.job_id db ≡ some j)
      × (active_pricing_rule j.job_type db.pricing_rules ≡ some rule)
      × (p.cost ≡ job_cost (estimate_payload_units j.payload) rule.unit_cost_tokens)
unfolding posting_of
posting_of-priced a r db p h =
    let (_, _, h1) = >>=-eq-some (require (is_verified r.verification_status)) _ h in
    let (w, _, h2) = >>=-eq-some (worker_of a db) _ h1 in
    let (j, found, h3) = >>=-eq-some (job_by_id a.job_id db) _ h2 in
    let (client_id, _, h4) = >>=-eq-some j.created_by_user_id _ h3 in
    let (_, _, h5) = >>=-eq-some (require (not (is_void_assignment a.status))) _ h4 in
    let (_, _, h6) = >>=-eq-some (require (not (is_void_job j.status))) _ h5 in
    let (_, _, h7) =
      >>=-eq-some (require (not (is_some (find_by (is_charge_of a.id) db.ledger)))) _ h6 in
    let (rule, priced, h8) = >>=-eq-some (active_pricing_rule j.job_type db.pricing_rules) _ h7 in
    (j, rule, found, priced, ap (λ (q : Posting). q.cost) (sym (some_inj h8)))

-- What the seed asks for a unit of a job.
abbrev pub seeded_cost : JobType → Option ℤ
seeded_cost embedding = some (pos 1_000_000_000)
seeded_cost inference = some (pos 2_000_000_000)
seeded_cost fine_tuning = none

abbrev unit_cost_of : Option PricingRule → Option ℤ
unit_cost_of none = none
unit_cost_of (some r) = some r.unit_cost_tokens

seeded_rule :
    (t : JobType) (now next_id : ℕ)
    → unit_cost_of (active_pricing_rule t (upsert_rules now next_id default_pricing_rules []))
      ≡ seeded_cost t
unfolding active_pricing_rule newest upsert_rule
seeded_rule embedding now next_id = refl
seeded_rule inference now next_id = refl
seeded_rule fine_tuning now next_id = refl

-- With the rules that the seed writes into an empty table, a charge is for an embedding at ten tokens for a
-- unit of its payload, or for an inference at twenty: a fine-tuning job is never charged.
pub seeded_charge :
    (a : Assignment) (r : SubmissionResult) (now next_id : ℕ) (db : Db) (p : Posting)
    → db.pricing_rules ≡ upsert_rules now next_id default_pricing_rules []
    → posting_of a r db ≡ some p
    → (j : Job) × (unit_cost : ℤ) × (job_by_id a.job_id db ≡ some j)
      × (seeded_cost j.job_type ≡ some unit_cost)
      × (j.job_type ≢ fine_tuning)
      × (p.cost ≡ job_cost (estimate_payload_units j.payload) unit_cost)
seeded_charge a r now next_id db p rules h =
    let (j, rule, found, priced, cost) = posting_of-priced a r db p h in
    let asked = sym (seeded_rule j.job_type now next_id) ∙ ap unit_cost_of (rw rules at priced) in
    (
      j,
      rule.unit_cost_tokens,
      found,
      asked,
      λ e. let bad = sym asked ∙ ap seeded_cost e in cc,
      cost,
    )
