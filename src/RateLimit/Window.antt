-- ===== src/RateLimit/Window.antt =====
-- What the limiter of rate_limit.py admits over a history of calls.
use open_mesh_ai.Prelude.{
  ℕ, ◌≤◌, ◌≡◌, refl, Bool, true, false, List, [], ◌∷◌, String, leb, str_eq, str_eq_iff,
  if◌then◌else◌, length, arith, count_by, Bool-cases, inl, inr,
}
use open_mesh_ai.RateLimit.Limiter.{Limiter, limiter, bucket_of, put_bucket, expire, admit, allow}
use open_mesh_ai.RateLimit.Bucket.{is_within, is_live, expire-is_live, count_by-expire-le}
use open_mesh_ai.RateLimit.Invariant.{
  Calls, is_call, Keeps, refused-Keeps, admitted-Keeps, other-Keeps, later-Keeps,
  bucket_of-put_bucket,
}

-- The calls that were admitted, the latest first, and the limiter at the end.
unfoldable pub run : Calls → Limiter → Calls → Calls × Limiter
run log l [] = (log, l)
run log l ((now, key) ∷ cs) =
    let (admitted, l') = allow now key l in run (if admitted then (now, key) ∷ log else log) l' cs

-- The clock never goes back.
abbrev pub IsMonotone : ℕ → Calls → Type 0
IsMonotone t [] = Unit
IsMonotone t ((now, key) ∷ cs) = (t ≤ now) × IsMonotone now cs

abbrev KeepsAll : ℕ → Calls → Limiter → Type 0
KeepsAll last log l =
    (key : String) → Keeps l.max_requests l.window key last log (bucket_of key l.events)

-- The log after a call.
abbrev logged : Bool → ℕ × String → Calls → Calls
logged admitted c log = if admitted then c ∷ log else log

-- One key's bucket and log after a call for `key`, from the two outcomes of `admit`.
put-Keeps :
    (now last : ℕ) (key j : String) (log : Calls) (l : Limiter) (admitted : Bool) (b : List ℕ)
    → last ≤ now
    → KeepsAll last log l
    → Keeps l.max_requests l.window key now (logged admitted (now, key) log) b
    → Keeps l.max_requests l.window j now
        (logged admitted (now, key) log)
        (bucket_of j (put_bucket key b l.events))
put-Keeps now last key j log l admitted b h k kept = elim (Bool-cases (str_eq key j)) [
  | inl same ↦
      rw (bucket_of-put_bucket key j b l.events, same) (rw (← (str_eq_iff key j).0 same) kept)
  | inr other ↦ rw (bucket_of-put_bucket key j b l.events, other) (unchanged admitted other)
]
  where
    unchanged :
        (ok : Bool)
        → str_eq key j ≡ false
        → Keeps l.max_requests l.window j now (logged ok (now, key) log) (bucket_of j l.events)
    unchanged true ne = other-Keeps l.max_requests l.window now j last key log _ h ne (k j)
    unchanged false ne = later-Keeps l.max_requests l.window now j last log _ h (k j)

allow-KeepsAll :
    (now last : ℕ) (key : String) (log : Calls) (l : Limiter)
    → last ≤ now
    → KeepsAll last log l
    → let (admitted, l') = allow now key l in KeepsAll now (logged admitted (now, key) log) l'
unfolding allow admit
allow-KeepsAll now last key log l h k j =
    put-Keeps now last key j log l _ _ h k (admit-Keeps (bucket_of key l.events) (k key))
  where
    admit-Keeps :
        (b : List ℕ)
        → Keeps l.max_requests l.window key last log b
        → let (admitted, b') = admit l.max_requests l.window now b in
          Keeps l.max_requests l.window key now (logged admitted (now, key) log) b'
    admit-Keeps b kept = elim (Bool-cases (leb l.max_requests (length (expire l.window now b)))) [
      | inl full ↦ rw full (refused-Keeps l.max_requests l.window now key last log b h kept)
      | inr room ↦
          rw room (admitted-Keeps l.max_requests l.window now key last log b h kept (ground arith))
    ]

run-KeepsAll :
    (last : ℕ) (log : Calls) (l : Limiter) (cs : Calls)
    → IsMonotone last cs
    → KeepsAll last log l
    → (t : ℕ) × (let (log', l') = run log l cs in KeepsAll t log' l')
unfolding run
run-KeepsAll last log l [] m k = (last, k)
run-KeepsAll last log l ((now, key) ∷ cs) (h, m) k =
    let (admitted, l') = allow now key l in
    run-KeepsAll now (logged admitted (now, key) log) l' cs m
      (allow-KeepsAll now last key log l h k)

-- The limits never change.
run-limits :
    (log : Calls) (l : Limiter) (cs : Calls)
    → ((run log l cs).1.max_requests ≡ l.max_requests) × ((run log l cs).1.window ≡ l.window)
unfolding run allow
run-limits log l [] = (refl, refl)
run-limits log l ((now, key) ∷ cs) =
    run-limits (if (allow now key l).0 then (now, key) ∷ log else log) (allow now key l).1 cs

limiter-KeepsAll : (max_requests window : ℕ) → KeepsAll 0 [] (limiter max_requests window)
unfolding limiter
limiter-KeepsAll max_requests window key = record {
  holds = λ s h. omega arith;
  only = λ p. omega arith;
  limited = λ s. omega arith;
  rising = omega arith;
}

-- While the clock does not go back, no window of `window` units, wherever it begins, holds more than
-- `max_requests` admitted calls of one key, whatever the calls were.
pub window_limit :
    (max_requests window : ℕ) (cs : Calls) (key : String) (start : ℕ)
    → IsMonotone 0 cs
    → count_by (is_call key (is_within start window)) (run [] (limiter max_requests window) cs).0
      ≤ max_requests
unfolding limiter
window_limit max_requests window cs key start m =
    let l = limiter max_requests window in
    let (t, k) = run-KeepsAll 0 [] l cs m (limiter-KeepsAll max_requests window) in
    let (same_max, same_window) = run-limits [] l cs in
    rw (same_max, same_window) at (k key).limited start

refused_live :
    (now : ℕ) (key : String) (l : Limiter)
    → (allow now key l).0 ≡ false
    → l.max_requests ≤ length (expire l.window now (bucket_of key l.events))
unfolding allow admit
refused_live now key l e = ground arith

refused_full :
    (now last : ℕ) (key : String) (log : Calls) (l : Limiter)
    → Keeps l.max_requests l.window key last log (bucket_of key l.events)
    → (allow now key l).0 ≡ false
    → l.max_requests ≤ count_by (is_call key (is_live l.window now)) log
refused_full now last key log l k e =
    let b = bucket_of key l.events in
    omega (
      arith,
      refused_live now key l e,
      expire-is_live l.window now 0 last b k.rising,
      count_by-expire-le (is_live l.window now) l.window now b,
      k.only (is_live l.window now),
    )

-- A call is refused only at capacity: after a history with a clock that does not go back, a refused
-- call finds at least `max_requests` admitted calls of its key that are at most `window` old.
pub refused_at_capacity :
    (max_requests window : ℕ) (cs : Calls) (key : String) (now : ℕ)
    → IsMonotone 0 cs
    → (allow now key (run [] (limiter max_requests window) cs).1).0 ≡ false
    → max_requests
      ≤ count_by (is_call key (is_live window now)) (run [] (limiter max_requests window) cs).0
unfolding limiter
refused_at_capacity max_requests window cs key now m e =
    let l = limiter max_requests window in
    let (t, k) = run-KeepsAll 0 [] l cs m (limiter-KeepsAll max_requests window) in
    let (same_max, same_window) = run-limits [] l cs in
    rw (same_max, same_window) at (refused_full now t key (run [] l cs).0 (run [] l cs).1 (k key) e)
