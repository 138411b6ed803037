-- ===== src/RateLimit/Bucket.antt =====
-- Facts about one bucket of rate_limit.py: what `expire` keeps of it, and that its instants rise.
use open_mesh_ai.Prelude.{
  ℕ, ◌+◌, ◌≤◌, ◌≡◌, refl, Bool, ◌&&◌, List, [], ◌∷◌, ◌++◌, ltb, leb, length, arith, count_by,
  Bool-cases, inl, inr,
}
use open_mesh_ai.RateLimit.Limiter.{expire}

abbrev pub is_since : ℕ → ℕ → Bool
is_since s t = leb s t

abbrev pub is_within : ℕ → ℕ → ℕ → Bool
is_within s window t = leb s t && leb t (s + window)

pub count_by-expire-le :
    (p : ℕ → Bool) (window now : ℕ) (b : List ℕ) → count_by p (expire window now b) ≤ count_by p b
count_by-expire-le p window now [] = omega arith
count_by-expire-le p window now (t ∷ ts) = ground (arith, count_by-expire-le p window now ts)

-- What is dropped lies before every window that reaches `now`.
pub count_by-expire :
    (s window now : ℕ) (b : List ℕ)
    → now ≤ s + window
    → count_by (is_since s) (expire window now b) ≡ count_by (is_since s) b
count_by-expire s window now [] h = refl
count_by-expire s window now (t ∷ ts) h = ground (arith, count_by-expire s window now ts h)

pub count_by-le-length : (p : ℕ → Bool) (b : List ℕ) → count_by p b ≤ length b
count_by-le-length p [] = omega arith
count_by-le-length p (t ∷ ts) = ground (arith, count_by-le-length p ts)

-- The instants rise along a bucket, from `low` to `high`.
abbrev pub IsRising : ℕ → ℕ → List ℕ → Type 0
IsRising low high [] = low ≤ high
IsRising low high (t ∷ ts) = (low ≤ t) × IsRising t high ts

pub IsRising-weaken :
    (low low' high : ℕ) (b : List ℕ) → low' ≤ low → IsRising low high b → IsRising low' high b
IsRising-weaken low low' high [] h r = omega arith
IsRising-weaken low low' high (t ∷ ts) h (p, r) = (omega arith, r)

pub IsRising-later :
    (low high high' : ℕ) (b : List ℕ) → high ≤ high' → IsRising low high b → IsRising low high' b
IsRising-later low high high' [] h r = omega arith
IsRising-later low high high' (t ∷ ts) h (p, r) = (p, IsRising-later t high high' ts h r)

pub IsRising-expire :
    (window now low high : ℕ) (b : List ℕ)
    → IsRising low high b
    → IsRising low high (expire window now b)
IsRising-expire window now low high [] r = r
IsRising-expire window now low high (t ∷ ts) (p, r) = elim (Bool-cases (ltb (t + window) now)) [
  | inl old ↦
      rw old (
        IsRising-weaken t low high (expire window now ts) p
          (IsRising-expire window now t high ts r))
  | inr live ↦ rw live (p, r)
]

pub IsRising-append :
    (low high now : ℕ) (b : List ℕ)
    → high ≤ now
    → IsRising low high b
    → IsRising low now (b ++ now ∷ [])
IsRising-append low high now [] h r = (omega arith, omega arith)
IsRising-append low high now (t ∷ ts) h (p, r) = (p, IsRising-append t high now ts h r)

abbrev pub is_live : ℕ → ℕ → ℕ → Bool
is_live window now t = leb now (t + window)

pub rising-is_live :
    (window now low high : ℕ) (b : List ℕ)
    → now ≤ low + window
    → IsRising low high b
    → length b ≤ count_by (is_live window now) b
rising-is_live window now low high [] h r = omega arith
rising-is_live window now low high (t ∷ ts) h (p, r) =
    ground (arith, rising-is_live window now t high ts (omega arith) r)

-- All that a call leaves in the bucket is live.
pub expire-is_live :
    (window now low high : ℕ) (b : List ℕ)
    → IsRising low high b
    → length (expire window now b) ≤ count_by (is_live window now) (expire window now b)
expire-is_live window now low high [] r = omega arith
expire-is_live window now low high (t ∷ ts) (p, r) = elim (Bool-cases (ltb (t + window) now)) [
  | inl old ↦ rw old (expire-is_live window now t high ts r)
  | inr live ↦ rw live (rising-is_live window now t high (t ∷ ts) (ground arith) (omega arith, r))
]
