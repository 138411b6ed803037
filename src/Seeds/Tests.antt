-- ===== src/Seeds/Tests.antt =====
-- The seeds of an empty pool, and of the pool of the samples.
use open_mesh_ai.Prelude.{◌≡◌, ◌≢◌, refl, none, some, ◌*ℤ◌, [], ◌∷◌, ℤ, pos, str_eq, map}
use open_mesh_ai.Decimal.Rounding.{round_signed, round_ceiling, round_half_even}
use open_mesh_ai.Json.{dumps}
use open_mesh_ai.Db.Enums.{fine_tuning}
use open_mesh_ai.Db.Models.{Job, User, PricingRule}
use open_mesh_ai.Db.Session.{Db, job_by_id}
use open_mesh_ai.Finance.Pricing.{
  estimate_payload_units, units_of_chars, job_cost, fee_of, active_pricing_rule, newest,
}
use open_mesh_ai.Finance.Accounting.{Posting, posting_of}
use open_mesh_ai.Samples.{running_pool, finished, good_result}
use open_mesh_ai.Seeds.Defaults.{
  Argon2, Bootstrap, default_pricing_rules, upsert_rules, upsert_rule, upsert_bootstrap_user,
  seed_defaults,
}
use open_mesh_ai.Seeds.Prices.{seeded_cost, seeded_charge}

abbrev pub plain : Argon2
plain = record { hash = λ s. s; needs_rehash = λ s. str_eq s "old" }

abbrev admin : Bootstrap
admin = record { admin_email = "buyer@example.org"; admin_password = "secret" }

abbrev seeded : Db
seeded = seed_defaults plain admin 3 2 50 running_pool

seeded-names :
    map (λ (r : PricingRule). r.name) seeded.pricing_rules ≡ "embedding" ∷ "EMBED" ∷ "RANK" ∷ []
unfolding seed_defaults upsert_rule upsert_bootstrap_user
seeded-names = refl

-- A client whose address is the administrator's becomes one, with the password of the settings.
seeded-users : map (λ (u : User). u.password_hash) seeded.users ≡ some "secret" ∷ none ∷ []
unfolding seed_defaults upsert_rule upsert_bootstrap_user
seeded-users = refl

abbrev newly_priced : Db
newly_priced = record running_pool { pricing_rules = upsert_rules 5 1 default_pricing_rules [] }

abbrev ten_tokens : Posting
ten_tokens = record {
  client_id = 1;
  worker_owner_id = 2;
  cost = pos 1_000_000_000;
  pool_fee = pos 50_000_000;
}

newly_priced-posting : posting_of finished good_result newly_priced ≡ some ten_tokens
unfolding posting_of active_pricing_rule newest upsert_rule job_cost fee_of round_signed
    estimate_payload_units round_ceiling dumps ◌*ℤ◌ units_of_chars round_half_even
newly_priced-posting = refl

seeded_charge_example :
    (j : Job) × (unit_cost : ℤ) × (job_by_id 1 newly_priced ≡ some j)
    × (seeded_cost j.job_type ≡ some unit_cost)
    × (j.job_type ≢ fine_tuning)
    × (ten_tokens.cost ≡ job_cost (estimate_payload_units j.payload) unit_cost)
seeded_charge_example =
    seeded_charge finished good_result 5 1 newly_priced ten_tokens refl newly_priced-posting
