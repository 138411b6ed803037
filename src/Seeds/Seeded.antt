-- ===== src/Seeds/Seeded.antt =====
-- What seeds.py leaves: a second run changes nothing.
use open_mesh_ai.Prelude.{◌≡◌, Bool, true, some, List, find_by, is_some}
use open_mesh_ai.Db.Session.{Db}
use open_mesh_ai.Api.Auth.{has_email}
use open_mesh_ai.Seeds.Defaults.{
  Argon2, Bootstrap, restored, embed_rule, rank_rule, is_named, repriced,
}

-- The first row that passes the test is there, and `f` leaves it as it is.
abbrev pub IsDone : {A : Type 0} → (A → Bool) → (A → A) → List A → Type 0
IsDone {A} p f rows = (a : A) × (find_by p rows ≡ some a) × (f a ≡ a)

-- The tables hold what a run of the seed with these settings leaves.
pub record IsSeeded (argon2 : Argon2) (settings : Bootstrap) (db : Db) : Type 0 where
  pub admin :
      IsDone (has_email settings.admin_email) (restored argon2 settings.admin_password) db.users
  pub has_settings : is_some db.pool_settings ≡ true
  pub embed : IsDone (is_named "EMBED") (repriced embed_rule) db.pricing_rules
  pub rank : IsDone (is_named "RANK") (repriced rank_rule) db.pricing_rules
