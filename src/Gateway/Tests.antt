-- ===== src/Gateway/Tests.antt =====
-- The theorems on the gateway at a job that is verified at the third poll, and one that is not.
use open_mesh_ai.Prelude.{
  some, In, ◌<◌, ℕ, ◌≡◌, refl, false, List, [], ◌∷◌, String, if◌then◌else◌, arith,
}
use open_mesh_ai.Json.{Fields, end, field, str, get}
use open_mesh_ai.Gateway.Jobs.{body, done, Poll, wait_for_verification}
use open_mesh_ai.Gateway.Waited.{
  IsAdvancing, is_waiting, is_refused, cancels, wait_ends, wait_cancels, wait_verified,
}

abbrev job_with : String → Fields
job_with status = field "status" (str status) end

abbrev poll_at : ℕ → String → Poll
poll_at now status = record { now = now; response = body (job_with status) }

abbrev good_polls : List Poll
good_polls = poll_at 5 "queued" ∷ poll_at 6 "running" ∷ poll_at 7 "verified" ∷ []

good_polls-done : (wait_for_verification (str "j1") 8 good_polls).0 ≡ done (job_with "verified")
unfolding wait_for_verification get
good_polls-done = refl

abbrev slow_polls : List Poll
slow_polls = poll_at 5 "queued" ∷ poll_at 6 "running" ∷ poll_at 9 "running" ∷ []

slow_polls-IsAdvancing : IsAdvancing 5 slow_polls
slow_polls-IsAdvancing = (omega arith, (omega arith, (omega arith, tt)))

wait_ends_example : is_waiting (wait_for_verification (str "j1") 7 slow_polls).0 ≡ false
wait_ends_example =
    wait_ends (str "j1") 7 5 slow_polls slow_polls-IsAdvancing (omega arith) (omega arith)

wait_cancels_example :
    cancels (wait_for_verification (str "j1") 7 slow_polls).1
    ≡ (if is_refused (wait_for_verification (str "j1") 7 slow_polls).0 then 1 else 0)
wait_cancels_example = wait_cancels (str "j1") 7 slow_polls

wait_verified_example :
    (get "status" (job_with "verified") ≡ some (str "verified"))
    × ((p : Poll) × In p good_polls × (p.now < 8) × (p.response ≡ body (job_with "verified")))
wait_verified_example = wait_verified (str "j1") 8 good_polls (job_with "verified") good_polls-done
