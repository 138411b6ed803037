-- ===== src/Emission/Run.antt =====
-- `get_daily_emission_status` and `run_daily_emission` of emission.py, and a round of
-- `_daily_emission_loop` of scheduler.py. Instants count from the epoch, and `now` is past its first
-- day. The day, the cap and the number of payouts, which a result repeats, are left out of it.
use open_mesh_ai.Prelude.{
  ℕ, ◌+◌, ◌-◌, ◌*◌, ◌/◌, ◌%◌, Bool, true, false, ◌&&◌, ◌||◌, Option, none, some, List, [], ◌∷◌, ℤ,
  pos, pos_part, ◌-ℤ◌, ltb, leb, ltb_ℤ, ◌==◌, str_eq, if◌then◌else◌, ◌>>=◌,
}
use open_mesh_ai.Db.Enums.{user}
use open_mesh_ai.Db.Models.{LedgerEntry}
use open_mesh_ai.Db.Session.{Db}
use open_mesh_ai.Finance.Accounts.{
  get_or_create_account, create_ledger_entry, sum_amounts, token_currency,
}
use open_mesh_ai.Emission.Uptime.{second}
use open_mesh_ai.Emission.Payouts.{
  DailyEmissionWorkerPayout, provisional_payouts, total_of, final_amount,
}

abbrev pub day : ℕ
day = 86_400 * second

-- Midnight before `now`.
abbrev pub day_start : ℕ → ℕ
day_start now = now - now % day

abbrev pub is_emission_since : ℕ → LedgerEntry → Bool
is_emission_since t e = str_eq e.entry_type "daily_emission" && leb t e.created_at

pub record DailyEmissionStatus : Type 0 where
  pub cap_tokens : ℕ
  pub emitted_today_tokens : ℤ
  pub remaining_tokens : ℕ
  pub run_completed : Bool

abbrev pub emitted_today : ℕ → Db → ℤ
emitted_today now db = sum_amounts (is_emission_since (day_start now)) db.ledger

unfoldable pub get_daily_emission_status : ℕ → ℕ → Db → DailyEmissionStatus
get_daily_emission_status cap_tokens now db = record {
  cap_tokens = cap_tokens;
  emitted_today_tokens = emitted_today now db;
  remaining_tokens = pos_part (pos cap_tokens -ℤ emitted_today now db);
  run_completed = ltb_ℤ (pos 0) (emitted_today now db);
}

pub record DailyEmissionResult : Type 0 where
  pub emitted_tokens : ℕ
  pub payouts : List DailyEmissionWorkerPayout

abbrev pub nothing : DailyEmissionResult
nothing = record { emitted_tokens = 0; payouts = [] }

-- The owner's account gets the tokens, with a ledger entry.
unfoldable pub pay_worker : ℕ → ℕ → ℕ → Db → Db
pay_worker now owner_user_id tokens db =
    let (owner_account, db') = get_or_create_account user owner_user_id token_currency db in
    create_ledger_entry now owner_account.id (pos tokens) "daily_emission" none none db'

abbrev pub add_paid :
    DailyEmissionWorkerPayout → ℕ → DailyEmissionResult × Db → DailyEmissionResult × Db
add_paid p tokens (out, db) = (
  record {
    emitted_tokens = tokens + out.emitted_tokens;
    payouts = record p { emission_tokens = tokens } ∷ out.payouts;
  },
  db,
)

-- The payouts in turn; one that rounds to nothing is passed over.
unfoldable pub pay_all :
    ℕ → (ℕ → ℕ) → List DailyEmissionWorkerPayout → Db → DailyEmissionResult × Db
pay_all now scaled [] db = (nothing, db)
pay_all now scaled (p ∷ ps) db = elim (scaled p.emission_tokens == 0) [
  | true ↦ pay_all now scaled ps db
  | false ↦
      add_paid p (scaled p.emission_tokens)
        (pay_all now scaled ps (pay_worker now p.worker_owner_id (scaled p.emission_tokens) db))
]

abbrev pub pay_provisional : ℕ → ℕ → List DailyEmissionWorkerPayout → Db → DailyEmissionResult × Db
pay_provisional now remaining_cap provisional db =
    if total_of provisional == 0
    then (nothing, db)
    else pay_all now (final_amount remaining_cap (total_of provisional)) provisional db

-- The session with what is emitted, before the caller's commit. `none` is an exception.
unfoldable pub run_daily_emission : ℕ → ℕ → ℕ → Db → Option (DailyEmissionResult × Db)
unfolding get_daily_emission_status
run_daily_emission cap_tokens base_tokens now db =
    let remaining_cap = (get_daily_emission_status cap_tokens now db).remaining_tokens in
    if remaining_cap == 0 then some (nothing, db) else (do
      provisional ← provisional_payouts base_tokens (now - day) now db db.workers
      some (pay_provisional now remaining_cap provisional db))

-- `should_run_time`: at or after the hour and minute of the day.
abbrev pub should_run_time : ℕ → ℕ → ℕ → Bool
should_run_time hour minute now =
    let minutes = now % day / (60 * second) in
    ltb hour (minutes / 60) || (minutes / 60 == hour && leb minute (minutes % 60))

abbrev pub committed : Option (DailyEmissionResult × Db) → Db → Db
committed none db = db
committed (some (out, db')) db = db'

-- One round: what was emitted is committed; an exception is logged, and nothing is.
unfoldable pub emission_round : ℕ → ℕ → ℕ → ℕ → ℕ → Db → Db
emission_round hour minute cap_tokens base_tokens now db =
    if should_run_time hour minute now
    then (if (get_daily_emission_status cap_tokens now db).run_completed
        then db
        else committed (run_daily_emission cap_tokens base_tokens now db) db)
    else db
