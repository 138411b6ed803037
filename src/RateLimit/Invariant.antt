-- ===== src/RateLimit/Invariant.antt =====
-- The invariant of one key's bucket of rate_limit.py, against the log of the admitted calls.
use open_mesh_ai.Prelude.{
  ℕ, ◌+◌, ◌≤◌, ◌<◌, ◌≡◌, refl, Bool, false, ◌&&◌, List, [], ◌∷◌, ◌++◌, String, str_eq, str_eq_iff,
  if◌then◌else◌, length, arith, count_by, count_by-append, Bool-cases, inl, inr,
}
use open_mesh_ai.RateLimit.Limiter.{bucket_of, put_bucket, expire}
use open_mesh_ai.RateLimit.Bucket.{
  is_since, is_within, IsRising, IsRising-later, IsRising-expire, IsRising-append, count_by-expire,
  count_by-expire-le, count_by-le-length,
}

abbrev pub Calls : Type 0
Calls = List (ℕ × String)

-- A call for `key` at an instant that passes the test.
abbrev pub is_call : String → (ℕ → Bool) → ℕ × String → Bool
is_call key p (t, j) = str_eq j key && p t

-- The invariant for one key: the bucket holds all that was admitted in any window that reaches the
-- last call, and nothing that was not admitted; no window has more than `max_requests`.
pub record Keeps (max_requests window : ℕ) (key : String) (last : ℕ) (log : Calls) (b : List ℕ)
    : Type 0 where
  pub holds :
      (s : ℕ)
      → last ≤ s + window
      → count_by (is_call key (is_since s)) log ≤ count_by (is_since s) b
  pub only : (p : ℕ → Bool) → count_by p b ≤ count_by (is_call key p) log
  pub limited : (s : ℕ) → count_by (is_call key (is_within s window)) log ≤ max_requests
  pub rising : IsRising 0 last b

pub is_within-le :
    (key : String) (s window : ℕ) (log : Calls)
    → count_by (is_call key (is_within s window)) log ≤ count_by (is_call key (is_since s)) log
is_within-le key s window [] = omega arith
is_within-le key s window ((t, j) ∷ log) = ground (arith, is_within-le key s window log)

module _ (max_requests window now : ℕ) (key : String) where
  pub refused-Keeps :
      (last : ℕ) (log : Calls) (b : List ℕ)
      → last ≤ now
      → Keeps max_requests window key last log b
      → Keeps max_requests window key now log (expire window now b)
  refused-Keeps last log b h k = record {
    holds = λ s r. ground (arith, k.holds s (omega arith), count_by-expire s window now b r);
    only = λ p. ground (arith, k.only p, count_by-expire-le p window now b);
    limited = k.limited;
    rising =
        IsRising-later 0 last now (expire window now b) h
          (IsRising-expire window now 0 last b k.rising);
  }

  pub admitted-holds :
      (last : ℕ) (log : Calls) (b : List ℕ)
      → last ≤ now
      → Keeps max_requests window key last log b
      → (s : ℕ) → now ≤ s + window
      → count_by (is_call key (is_since s)) ((now, key) ∷ log)
        ≤ count_by (is_since s) (expire window now b ++ now ∷ [])
  admitted-holds last log b h k s r = ground (
    arith,
    k.holds s (omega arith),
    count_by-expire s window now b r,
    count_by-append (is_since s) (expire window now b) (now ∷ []),
    str_eq_iff key key,
  )

  pub admitted-limited :
      (last : ℕ) (log : Calls) (b : List ℕ)
      → last ≤ now
      → Keeps max_requests window key last log b
      → length (expire window now b) < max_requests
      → (s : ℕ) → count_by (is_call key (is_within s window)) ((now, key) ∷ log) ≤ max_requests
  admitted-limited last log b h k room s = elim (Bool-cases (is_within s window now)) [
    | inl inside ↦ ground (
      arith,
      k.holds s (ground arith),
      is_within-le key s window log,
      count_by-expire s window now b (ground arith),
      count_by-le-length (is_since s) (expire window now b),
    )
    | inr outside ↦ ground (arith, k.limited s)
  ]

  pub admitted-Keeps :
      (last : ℕ) (log : Calls) (b : List ℕ)
      → last ≤ now
      → Keeps max_requests window key last log b
      → length (expire window now b) < max_requests
      → Keeps max_requests window key now ((now, key) ∷ log) (expire window now b ++ now ∷ [])
  admitted-Keeps last log b h k room = record {
    holds = admitted-holds last log b h k;
    only = λ p. ground (
      arith,
      k.only p,
      count_by-expire-le p window now b,
      count_by-append p (expire window now b) (now ∷ []),
      str_eq_iff key key,
    );
    limited = admitted-limited last log b h k room;
    rising =
        IsRising-append 0 last now (expire window now b) h
          (IsRising-expire window now 0 last b k.rising);
  }

  -- The bucket of another key stands.
  pub other-Keeps :
      (last : ℕ) (other : String) (log : Calls) (b : List ℕ)
      → last ≤ now
      → str_eq other key ≡ false
      → Keeps max_requests window key last log b
      → Keeps max_requests window key now ((now, other) ∷ log) b
  other-Keeps last other log b h ne k = record {
    holds = λ s r. ground (arith, k.holds s (omega arith));
    only = λ p. ground (arith, k.only p);
    limited = λ s. ground (arith, k.limited s);
    rising = IsRising-later 0 last now b h k.rising;
  }

  pub later-Keeps :
      (last : ℕ) (log : Calls) (b : List ℕ)
      → last ≤ now
      → Keeps max_requests window key last log b
      → Keeps max_requests window key now log b
  later-Keeps last log b h k = record {
    holds = λ s r. k.holds s (omega arith);
    only = k.only;
    limited = k.limited;
    rising = IsRising-later 0 last now b h k.rising;
  }

pub bucket_of-put_bucket :
    (k j : String) (b : List ℕ) (m : List (String × List ℕ))
    → bucket_of j (put_bucket k b m) ≡ (if str_eq k j then b else bucket_of j m)
bucket_of-put_bucket k j b [] = refl
bucket_of-put_bucket k j b ((i, c) ∷ m) =
    ground (arith, str_eq_iff i k, str_eq_iff i j, str_eq_iff k j, bucket_of-put_bucket k j b m)
