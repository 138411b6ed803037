-- ===== src/Db/Enums.antt =====
-- pool-coordinator/app/db/models/enums.py, with `==` and the sets of states that the code tests.
use open_mesh_ai.Prelude.{Bool, true, false}

pub data Role : Type 0 where
  client worker_owner : Role

pub data WorkerStatus : Type 0 where
  online offline draining maintenance banned : WorkerStatus

pub data JobType : Type 0 where
  inference fine_tuning embedding : JobType

pub data JobStatus : Type 0 where
  queued running completed failed canceled : JobStatus

pub data AssignmentStatus : Type 0 where
  assigned started completed failed canceled : AssignmentStatus

pub data OwnerType : Type 0 where
  user worker system : OwnerType

pub data VerificationStatus : Type 0 where
  pending verified disputed rejected : VerificationStatus

abbrev pub role_eq : Role → Role → Bool
role_eq client client = true
role_eq worker_owner worker_owner = true
role_eq _ _ = false

abbrev pub job_type_eq : JobType → JobType → Bool
job_type_eq inference inference = true
job_type_eq fine_tuning fine_tuning = true
job_type_eq embedding embedding = true
job_type_eq _ _ = false

abbrev pub owner_type_eq : OwnerType → OwnerType → Bool
owner_type_eq user user = true
owner_type_eq worker worker = true
owner_type_eq system system = true
owner_type_eq _ _ = false

abbrev pub is_online : WorkerStatus → Bool
is_online online = true
is_online _ = false

abbrev pub is_queued : JobStatus → Bool
is_queued queued = true
is_queued _ = false

-- `{ASSIGNED, STARTED}`
abbrev pub is_active : AssignmentStatus → Bool
is_active AssignmentStatus.assigned = true
is_active AssignmentStatus.started = true
is_active _ = false

abbrev pub is_assigned : AssignmentStatus → Bool
is_assigned AssignmentStatus.assigned = true
is_assigned _ = false

-- `{FAILED, CANCELED}`
abbrev pub is_void_assignment : AssignmentStatus → Bool
is_void_assignment AssignmentStatus.failed = true
is_void_assignment AssignmentStatus.canceled = true
is_void_assignment _ = false

abbrev pub is_void_job : JobStatus → Bool
is_void_job JobStatus.failed = true
is_void_job JobStatus.canceled = true
is_void_job _ = false

abbrev pub is_verified : VerificationStatus → Bool
is_verified verified = true
is_verified _ = false
