-- ===== src/RateLimit/Tests.antt =====
-- The theorems on the rate limiters at two calls in ten units of time.
use open_mesh_ai.Prelude.{◌≤◌, ◌≡◌, refl, false, [], ◌∷◌, arith, count_by}
use open_mesh_ai.RateLimit.Limiter.{limiter, allow, admit}
use open_mesh_ai.RateLimit.Invariant.{Calls, is_call}
use open_mesh_ai.RateLimit.Window.{run, window_limit, refused_at_capacity}
use open_mesh_ai.RateLimit.Bucket.{is_within, is_live}
use open_mesh_ai.RateLimit.Gateway.{check, verdict, check-allow}

abbrev calls : Calls
calls = (1, "7") ∷ (2, "7") ∷ (3, "7") ∷ (12, "7") ∷ []

-- The third call comes too soon; the fourth finds the first expired.
run_sample : (run [] (limiter 2 10) calls).0 ≡ (12, "7") ∷ (2, "7") ∷ (1, "7") ∷ []
unfolding run allow limiter admit
run_sample = refl

window_limit_example : count_by (is_call "7" (is_within 1 10)) (run [] (limiter 2 10) calls).0 ≤ 2
window_limit_example =
    window_limit 2 10 calls "7" 1 (omega arith, (omega arith, (omega arith, (omega arith, tt))))

abbrev two_calls : Calls
two_calls = (1, "7") ∷ (2, "7") ∷ []

third_refused : (allow 3 "7" (run [] (limiter 2 10) two_calls).1).0 ≡ false
unfolding run allow limiter admit
third_refused = refl

refused_at_capacity_example :
    2 ≤ count_by (is_call "7" (is_live 10 3)) (run [] (limiter 2 10) two_calls).0
refused_at_capacity_example =
    refused_at_capacity 2 10 two_calls "7" 3 (omega arith, (omega arith, tt)) third_refused

check-allow_example :
    let l = (run [] (limiter 2 10) two_calls).1 in
    check 3 "7" l ≡ (verdict (allow 3 "7" l).0, (allow 3 "7" l).1)
check-allow_example = check-allow 3 "7" (run [] (limiter 2 10) two_calls).1
