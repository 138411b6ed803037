-- ===== src/Seeds/Defaults.antt =====
-- `seed_defaults` of pool-coordinator/app/db/seeds.py. `hash` and `needs_rehash` are those of argon2. A
-- unit price and a minimum charge, which no code reads, are left out of a rule.
use open_mesh_ai.Prelude.{
  ℕ, suc, Bool, true, Option, none, some, List, [], ◌∷◌, ◌++◌, String, ℤ, pos, str_eq, find_by,
  update_by, if◌then◌else◌,
}
use open_mesh_ai.Decimal.Order.{fin}
use open_mesh_ai.Db.Enums.{worker_owner, JobType, inference, embedding}
use open_mesh_ai.Db.Models.{User, PoolSettings, PricingRule}
use open_mesh_ai.Db.Session.{Db}
use open_mesh_ai.Api.Auth.{has_email}

pub record Argon2 : Type 0 where
  pub hash : String → String
  pub needs_rehash : String → Bool

-- The first row that passes the test is changed; where there is none a new one is added.
abbrev pub upsert : {A : Type 0} → (A → Bool) → (A → A) → A → List A → List A
upsert p f fresh rows = elim (find_by p rows) [
  | none ↦ rows ++ fresh ∷ []
  | some found ↦ update_by p f rows
]

-- `app_settings.admin_email` and `app_settings.admin_password`
pub record Bootstrap : Type 0 where
  pub admin_email : String
  pub admin_password : String

abbrev pub rehashed : Argon2 → String → Option String → String
rehashed argon2 password none = argon2.hash password
rehashed argon2 password (some password_hash) =
    if argon2.needs_rehash password_hash then argon2.hash password else password_hash

-- The user that is there, as it is left.
abbrev pub restored : Argon2 → String → User → User
restored argon2 password u = record u {
  role = worker_owner;
  is_active = true;
  password_hash = some (rehashed argon2 password u.password_hash);
}

abbrev pub bootstrap_user : Argon2 → ℕ → Bootstrap → User
bootstrap_user argon2 next_id settings = record {
  id = next_id;
  email = settings.admin_email;
  role = worker_owner;
  is_active = true;
  password_hash = some (argon2.hash settings.admin_password);
}

unfoldable pub upsert_bootstrap_user : Argon2 → ℕ → Bootstrap → Db → Db
upsert_bootstrap_user argon2 next_id settings db = record db {
  users =
      upsert (has_email settings.admin_email) (restored argon2 settings.admin_password)
        (bootstrap_user argon2 next_id settings) db.users;
}

-- The fee is the seed's; what else is read is the columns' default.
abbrev pub default_pool_settings : PoolSettings
default_pool_settings = record {
  audit_interval_jobs = pos 0;
  audit_job_rate_bps = pos 0;
  fraud_ban_threshold = pos 2;
  embed_similarity_threshold = fin (pos 98_500) 5;
  pool_fee_bps = pos 1000;
}

abbrev pub upsert_pool_settings : Db → Db
upsert_pool_settings db = record db {
  pool_settings = elim db.pool_settings [
    | none ↦ some default_pool_settings
    | some settings ↦ some settings
  ];
}

pub record DefaultPricingRule : Type 0 where
  pub name : String
  pub job_type : JobType
  pub unit_cost_tokens : ℤ

abbrev pub embed_rule : DefaultPricingRule
embed_rule = record { name = "EMBED"; job_type = embedding; unit_cost_tokens = pos 1_000_000_000 }

abbrev pub rank_rule : DefaultPricingRule
rank_rule = record { name = "RANK"; job_type = inference; unit_cost_tokens = pos 2_000_000_000 }

abbrev pub default_pricing_rules : List DefaultPricingRule
default_pricing_rules = embed_rule ∷ rank_rule ∷ []

abbrev pub is_named : String → PricingRule → Bool
is_named name r = str_eq r.name name

abbrev pub new_rule : ℕ → ℕ → DefaultPricingRule → PricingRule
new_rule now id rule = record {
  id = id;
  name = rule.name;
  job_type = rule.job_type;
  unit_cost_tokens = rule.unit_cost_tokens;
  is_active = true;
  effective_from = now;
}

-- The cost is set again; the job type and the start are not.
abbrev pub repriced : DefaultPricingRule → PricingRule → PricingRule
repriced rule r = record r { unit_cost_tokens = rule.unit_cost_tokens; is_active = true }

-- `next_id` is the id that a new row gets.
unfoldable pub upsert_rule : ℕ → ℕ → DefaultPricingRule → List PricingRule → List PricingRule
upsert_rule now next_id rule =
    upsert (is_named rule.name) (repriced rule) (new_rule now next_id rule)

abbrev pub upsert_rules : ℕ → ℕ → List DefaultPricingRule → List PricingRule → List PricingRule
upsert_rules now next_id [] rows = rows
upsert_rules now next_id (rule ∷ rules) rows =
    upsert_rules now (suc next_id) rules (upsert_rule now next_id rule rows)

abbrev pub upsert_pricing_rules : ℕ → ℕ → Db → Db
upsert_pricing_rules now next_id db = record db {
  pricing_rules = upsert_rules now next_id default_pricing_rules db.pricing_rules;
}

-- The ids that the sequences of `users` and `pricing_rules` give next.
unfoldable pub seed_defaults : Argon2 → Bootstrap → ℕ → ℕ → ℕ → Db → Db
seed_defaults argon2 settings next_user_id next_rule_id now db =
    upsert_pricing_rules now next_rule_id
      (upsert_pool_settings (upsert_bootstrap_user argon2 next_user_id settings db))
