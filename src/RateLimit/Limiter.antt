-- ===== src/RateLimit/Limiter.antt =====
-- `SlidingWindowRateLimiter` of pool-coordinator/app/core/rate_limit.py. An instant of the monotonic
-- clock and a window are numbers of one unit, and `t < now - window` is written `t + window < now`,
-- since the clock may be younger than the window. A call runs under the lock, so a history is a list
-- of calls.
use open_mesh_ai.Prelude.{
  ℕ, ◌+◌, Bool, true, false, List, [], ◌∷◌, ◌++◌, String, ltb, leb, str_eq, if◌then◌else◌, length,
}

pub record Limiter : Type 0 where
  pub max_requests : ℕ
  pub window : ℕ
  pub events : List (String × List ℕ)

unfoldable pub limiter : ℕ → ℕ → Limiter
limiter max_requests window = record { max_requests = max_requests; window = window; events = [] }

-- `self._events[key]`: a missing bucket is an empty one.
abbrev pub bucket_of : String → List (String × List ℕ) → List ℕ
bucket_of k [] = []
bucket_of k ((j, b) ∷ m) = if str_eq j k then b else bucket_of k m

abbrev pub put_bucket : String → List ℕ → List (String × List ℕ) → List (String × List ℕ)
put_bucket k b [] = (k, b) ∷ []
put_bucket k b ((j, c) ∷ m) = if str_eq j k then (j, b) ∷ m else (j, c) ∷ put_bucket k b m

-- `while bucket and bucket[0] < cutoff: bucket.popleft()`
abbrev pub expire : ℕ → ℕ → List ℕ → List ℕ
expire window now [] = []
expire window now (t ∷ ts) =
    let rest = expire window now ts in if ltb (t + window) now then rest else t ∷ ts

-- The answer, and the bucket as the call leaves it.
unfoldable pub admit : ℕ → ℕ → ℕ → List ℕ → Bool × List ℕ
admit max_requests window now bucket =
    let live = expire window now bucket in
    if leb max_requests (length live) then (false, live) else (true, live ++ now ∷ [])

unfoldable pub allow : ℕ → String → Limiter → Bool × Limiter
allow now key l =
    let (admitted, bucket) = admit l.max_requests l.window now (bucket_of key l.events) in
    (admitted, record l { events = put_bucket key bucket l.events })
