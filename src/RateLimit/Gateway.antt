-- ===== src/RateLimit/Gateway.antt =====
-- `RateLimiter` of pool-gateway/app/main.py: the same bucket, with an `HTTPException` for a refusal.
use open_mesh_ai.Prelude.{
  ℕ, ◌≡◌, Bool, true, false, [], ◌∷◌, ◌++◌, String, leb, if◌then◌else◌, length, arith,
}
use open_mesh_ai.RateLimit.Limiter.{Limiter, bucket_of, put_bucket, expire, admit, allow}

pub data Check : Type 0 where
  passes : Check
  -- `HTTP_429_TOO_MANY_REQUESTS`
  too_many_requests : Check

-- The exception leaves the expired events dropped.
unfoldable pub check : ℕ → String → Limiter → Check × Limiter
check now key l =
    let bucket = expire l.window now (bucket_of key l.events) in
    if leb l.max_requests (length bucket)
    then (too_many_requests, record l { events = put_bucket key bucket l.events })
    else (passes, record l { events = put_bucket key (bucket ++ now ∷ []) l.events })

abbrev pub verdict : Bool → Check
verdict true = passes
verdict false = too_many_requests

-- The gateway's limiter and the coordinator's take the same decision on the same state, and leave the
-- same state.
pub check-allow :
    (now : ℕ) (key : String) (l : Limiter)
    → check now key l ≡ (verdict (allow now key l).0, (allow now key l).1)
unfolding check allow admit
check-allow now key l = ground arith
