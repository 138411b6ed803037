-- ===== src/Dispatch/Best.antt =====
-- The candidate that job_dispatcher.py picks for a job, and the order of the candidates.
use open_mesh_ai.Prelude.{
  ◌≡◌, ◌<◌, ◌≤◌, ◌⊎◌, ◌∙◌, refl, true, false, Option, none, some, List, [], ◌∷◌, arith, All,
  All-map, In, inl, inr, Bool-cases, subst,
}
use open_mesh_ai.Decimal.Order.{Decimal, is_nan, lt_num, lt_num_trans, lt_num_irrefl, lt_num_asym}
use open_mesh_ai.Decimal.Minus.{rounded, minus, lt_num-opposite, is_nan-minus}
use open_mesh_ai.Dispatch.Candidates.{
  Candidate, precedes, insert, sort, any_reputation, is_sortable, select_candidate,
}

-- The candidate's key is a number.
abbrev pub IsNumber : Candidate → Type 0
IsNumber c = is_nan (minus c.reputation) ≡ false

precedes_irrefl : (c : Candidate) → precedes c c ≡ false
unfolding precedes
precedes_irrefl c = ground (arith, lt_num_irrefl (minus c.reputation))

pub precedes_asym : (c d : Candidate) → precedes c d ≡ true → precedes d c ≡ false
unfolding precedes
precedes_asym c d h = ground (
  arith,
  lt_num_asym (minus d.reputation) (minus c.reputation),
  lt_num_asym (minus c.reputation) (minus d.reputation),
)

pub precedes_trans :
    (c d e : Candidate)
    → IsNumber c
    → IsNumber d
    → IsNumber e
    → precedes d c ≡ false
    → precedes e d ≡ false
    → precedes e c ≡ false
unfolding precedes
precedes_trans c d e nc nd ne h k = ground (
  arith,
  lt_num_trans (minus c.reputation) (minus d.reputation) (minus e.reputation),
  lt_num_trans (minus e.reputation) (minus c.reputation) (minus d.reputation),
  lt_num_trans (minus d.reputation) (minus e.reputation) (minus c.reputation),
)

abbrev Least : Candidate → List Candidate → Type 0
Least c = All (λ d. precedes d c ≡ false)

abbrev IsSorted : List Candidate → Type 0
IsSorted [] = Unit
IsSorted (c ∷ cs) = Least c cs × IsSorted cs

All-insert :
    (P : Candidate → Type 0) (c : Candidate) (cs : List Candidate)
    → P c
    → All P cs
    → All P (insert c cs)
unfolding insert
All-insert P c [] h k = (h, tt)
All-insert P c (d ∷ ds) h (p, k) = elim (Bool-cases (precedes d c)) [
  | inl later ↦ rw later (p, All-insert P c ds h k)
  | inr first ↦ rw first (h, (p, k))
]

insert-IsSorted :
    (c : Candidate) (cs : List Candidate)
    → IsNumber c
    → All IsNumber cs
    → IsSorted cs
    → IsSorted (insert c cs)
unfolding insert
insert-IsSorted c [] n ns s = (tt, tt)
insert-IsSorted c (d ∷ ds) n (nd, ns) (least, s) = elim (Bool-cases (precedes d c)) [
  | inl later ↦ rw later (
    All-insert (λ e. precedes e d ≡ false) c ds (precedes_asym d c later) least,
    insert-IsSorted c ds n ns s,
  )
  | inr first ↦ rw first ((first, behind ds ns least first), (least, s))
]
  where
    behind :
        (es : List Candidate) → All IsNumber es → Least d es → precedes d c ≡ false → Least c es
    behind [] m l f = tt
    behind (e ∷ es) (ne, m) (l, ls) f = (precedes_trans c d e n nd ne f l, behind es m ls f)

pub sort-IsNumber : (cs : List Candidate) → All IsNumber cs → All IsNumber (sort cs)
unfolding sort
sort-IsNumber [] n = tt
sort-IsNumber (c ∷ cs) (n, ns) = All-insert IsNumber c (sort cs) n (sort-IsNumber cs ns)

sort-IsSorted : (cs : List Candidate) → All IsNumber cs → IsSorted (sort cs)
unfolding sort
sort-IsSorted [] n = tt
sort-IsSorted (c ∷ cs) (n, ns) =
    insert-IsSorted c (sort cs) n (sort-IsNumber cs ns) (sort-IsSorted cs ns)

-- What holds of the sorted list holds of the list, and each is one of the list.
All-insert_inv :
    (P : Candidate → Type 0) (c : Candidate) (cs : List Candidate)
    → All P (insert c cs)
    → P c × All P cs
unfolding insert
All-insert_inv P c [] (h, k) = (h, tt)
All-insert_inv P c (d ∷ ds) h = elim (Bool-cases (precedes d c)) [
  | inl later ↦
      let h' : P d × All P (insert c ds) = rw later at h in
      let (hc, hds) = All-insert_inv P c ds h'.1 in (hc, (h'.0, hds))
  | inr first ↦ let h' : P c × (P d × All P ds) = rw first at h in (h'.0, h'.1)
]

All-sort_inv : (P : Candidate → Type 0) (cs : List Candidate) → All P (sort cs) → All P cs
unfolding sort
All-sort_inv P [] h = tt
All-sort_inv P (c ∷ cs) h =
    let (hc, hs) = All-insert_inv P c (sort cs) h in (hc, All-sort_inv P cs hs)

All-sort : (P : Candidate → Type 0) (cs : List Candidate) → All P cs → All P (sort cs)
unfolding sort
All-sort P [] h = tt
All-sort P (c ∷ cs) (h, hs) = All-insert P c (sort cs) h (All-sort P cs hs)

pub All-numbers : (cs : List Candidate) → any_reputation is_nan cs ≡ false → All IsNumber cs
All-numbers [] h = tt
All-numbers (c ∷ cs) h = (is_nan-minus c.reputation ∙ ground arith, All-numbers cs (ground arith))

In-All : (cs ds : List Candidate) → ((c : Candidate) → In c ds → In c cs) → All (λ c. In c cs) ds
In-All cs [] h = tt
In-All cs (d ∷ ds) h = (h d (inl refl), In-All cs ds (λ c m. h c (inr m)))

-- The head of the sorted list, from the answer.
picked : List Candidate → Option (Option Candidate)
picked cs = elim cs [ [] ↦ some none | c ∷ rest ↦ some (some c) ]

picked-Least :
    (cs : List Candidate) (c : Candidate) → IsSorted cs → picked cs ≡ some (some c) → Least c cs
unfolding picked
picked-Least [] c s e = tt
picked-Least (d ∷ ds) c (l, s) e =
    let same : d ≡ c = cc in subst (λ x. Least x (d ∷ ds)) same (precedes_irrefl d, l)

picked-All :
    (P : Candidate → Type 0) (cs : List Candidate) (c : Candidate)
    → All P cs
    → picked cs ≡ some (some c)
    → P c
unfolding picked
picked-All P [] c h e = cc
picked-All P (d ∷ ds) c (h, hs) e = let same : d ≡ c = cc in subst P same h

select_candidate-picked :
    (cs : List Candidate) (c : Candidate)
    → select_candidate cs ≡ some (some c)
    → (is_sortable cs ≡ true) × (picked (sort cs) ≡ some (some c))
unfolding select_candidate picked
select_candidate-picked cs c e = elim (Bool-cases (is_sortable cs)) [
  | inl good ↦ (good, rw (good, select_candidate) at e)
  | inr bad ↦ let never : none ≡ some (some c) = rw (bad, select_candidate) at e in cc
]

sortable-IsSorted : (cs : List Candidate) → is_sortable cs ≡ true → IsSorted (sort cs)
unfolding sort insert
sortable-IsSorted [] h = tt
sortable-IsSorted (c ∷ []) h = (tt, tt)
sortable-IsSorted (c ∷ d ∷ ds) h =
    sort-IsSorted (c ∷ d ∷ ds) (All-numbers (c ∷ d ∷ ds) (ground arith))

-- Of two reputations, to 28 digits, neither is above the other.
abbrev pub AreEqual : Decimal → Decimal → Type 0
AreEqual x y = (lt_num (rounded x) (rounded y) ≡ false) × (lt_num (rounded y) (rounded x) ≡ false)

-- The first candidate is as good as the second, or better: its reputation is higher, or they are equal
-- and it has the lower latency, or that too is equal and it has the lower load, or that too is equal and
-- its worker's id is not above the other's.
abbrev pub IsAsGood : Candidate → Candidate → Type 0
IsAsGood c d =
    (lt_num (rounded d.reputation) (rounded c.reputation) ≡ true)
    ⊎ (AreEqual c.reputation d.reputation
        × ((c.latency_ms < d.latency_ms)
            ⊎ ((c.latency_ms ≡ d.latency_ms)
                × ((c.load < d.load) ⊎ ((c.load ≡ d.load) × (c.worker.id ≤ d.worker.id))))))

precedes-IsAsGood : (c d : Candidate) → precedes d c ≡ false → IsAsGood c d
unfolding precedes
precedes-IsAsGood c d h =
    let there = lt_num-opposite (rounded c.reputation) (rounded d.reputation) in
    let back = lt_num-opposite (rounded d.reputation) (rounded c.reputation) in
    ground (arith, there, back)

-- The candidate that is picked is one of the candidates, and as good as each: none has a higher
-- reputation, to 28 digits, among those of its reputation none a lower latency, among those of its
-- latency too none a lower load, and among those of its load too none a worker with a lower id.
pub select_candidate-least :
    (cs : List Candidate) (c : Candidate)
    → select_candidate cs ≡ some (some c)
    → In c cs × All (IsAsGood c) cs
select_candidate-least cs c e =
    let (good, first) = select_candidate-picked cs c e in
    (
      picked-All (λ d. In d cs) (sort cs) c (All-sort (λ d. In d cs) cs (In-All cs cs (λ d m. m)))
          first,
      All-map (λ d. precedes d c ≡ false) (IsAsGood c) (precedes-IsAsGood c) cs
          (All-sort_inv (λ d. precedes d c ≡ false) cs
            (picked-Least (sort cs) c (sortable-IsSorted cs good) first)),
    )
