-- ===== src/Dispatch/Sorting.antt =====
-- The sort of job_dispatcher.py: candidates of distinct workers may come in any order.
use open_mesh_ai.Prelude.{
  ◌≡◌, ◌≢◌, refl, Bool, true, false, ◌||◌, List, [], ◌∷◌, ◌++◌, arith, All, inl, inr, Bool-cases,
  ap, sym, ◌∙◌, length, leb,
}
use open_mesh_ai.Decimal.Order.{Decimal, is_nan}
use open_mesh_ai.Decimal.Minus.{minus_raises}
use open_mesh_ai.Dispatch.Candidates.{
  Candidate, precedes, insert, sort, any_reputation, is_sortable, select_candidate,
}
use open_mesh_ai.Dispatch.Best.{IsNumber, precedes_asym, precedes_trans, sort-IsNumber, All-numbers}

-- Of two workers' candidates one comes first.
precedes_total :
    (c d : Candidate) → c.worker.id ≢ d.worker.id → precedes c d ≡ false → precedes d c ≡ true
unfolding precedes
precedes_total c d ne h = ground arith

insert_swap :
    (c d : Candidate) (cs : List Candidate)
    → c.worker.id ≢ d.worker.id
    → IsNumber c
    → IsNumber d
    → All IsNumber cs
    → insert c (insert d cs) ≡ insert d (insert c cs)
unfolding insert
insert_swap c d [] ne nc nd ns = elim (Bool-cases (precedes d c)) [
  | inl first ↦ rw (first, precedes_asym d c first)
  | inr second ↦ rw (second, precedes_total d c (λ e. ne (sym e)) second)
]
insert_swap c d (e ∷ es) ne nc nd ns = elim (Bool-cases (precedes e c)) [
  | inl ec ↦ elim (Bool-cases (precedes e d)) [
    | inl ed ↦ rw (ed, ec, ed) (ap (λ xs. e ∷ xs) (insert_swap c d es ne nc nd ns.1))
    | inr ed ↦ elim (Bool-cases (precedes d c)) [
      | inl dc ↦ rw (ed, ec, ed, dc)
      | inr dc ↦ let bad = precedes_trans c d e nc nd ns.0 dc ed in cc
    ]
  ]
  | inr ec ↦ elim (Bool-cases (precedes e d)) [
    | inl ed ↦ elim (Bool-cases (precedes c d)) [
      | inl cd ↦ rw (ed, ec, cd, ed)
      | inr cd ↦ let bad = precedes_trans d c e nd nc ns.0 cd ec in cc
    ]
    | inr ed ↦ elim (Bool-cases (precedes d c)) [
      | inl dc ↦ rw (ed, ec, dc, precedes_asym d c dc)
      | inr dc ↦ rw (ed, ec, dc, precedes_total d c (λ x. ne (sym x)) dc, ed)
    ]
  ]
]

sort_swap :
    (p : List Candidate) (c d : Candidate) (q : List Candidate)
    → c.worker.id ≢ d.worker.id
    → All IsNumber (p ++ c ∷ d ∷ q)
    → sort (p ++ c ∷ d ∷ q) ≡ sort (p ++ d ∷ c ∷ q)
unfolding sort
sort_swap [] c d q ne ns = insert_swap c d (sort q) ne ns.0 ns.1.0 (sort-IsNumber q ns.1.1)
sort_swap (e ∷ p) c d q ne ns = ap (insert e) (sort_swap p c d q ne ns.1)

any_reputation_swap :
    (f : Decimal → Bool) (p : List Candidate) (c d : Candidate) (q : List Candidate)
    → any_reputation f (p ++ c ∷ d ∷ q) ≡ any_reputation f (p ++ d ∷ c ∷ q)
any_reputation_swap f [] c d q = ground arith
any_reputation_swap f (e ∷ p) c d q = ap (λ b. f e.reputation || b) (any_reputation_swap f p c d q)

length_swap :
    (p : List Candidate) (c d : Candidate) (q : List Candidate)
    → length (p ++ c ∷ d ∷ q) ≡ length (p ++ d ∷ c ∷ q)
length_swap [] c d q = refl
length_swap (e ∷ p) c d q = omega (arith, length_swap p c d q)

length_two :
    (p : List Candidate) (c d : Candidate) (q : List Candidate)
    → leb (length (p ++ c ∷ d ∷ q)) 1 ≡ false
length_two [] c d q = ground arith
length_two (e ∷ p) c d q = ground (arith, length_two p c d q)

is_sortable_numbers :
    (p : List Candidate) (c d : Candidate) (q : List Candidate)
    → is_sortable (p ++ c ∷ d ∷ q) ≡ true
    → All IsNumber (p ++ c ∷ d ∷ q)
is_sortable_numbers p c d q h = All-numbers _ (ground (arith, length_two p c d q))

pub select_candidate_swap :
    (p : List Candidate) (c d : Candidate) (q : List Candidate)
    → c.worker.id ≢ d.worker.id
    → select_candidate (p ++ c ∷ d ∷ q) ≡ select_candidate (p ++ d ∷ c ∷ q)
unfolding select_candidate
select_candidate_swap p c d q ne =
    let same : is_sortable (p ++ d ∷ c ∷ q) ≡ is_sortable (p ++ c ∷ d ∷ q) = rw (
      any_reputation_swap minus_raises p c d q,
      any_reputation_swap is_nan p c d q,
      length_swap p c d q,
    ) in
    elim (Bool-cases (is_sortable (p ++ c ∷ d ∷ q))) [
      | inl good ↦ rw (good, same ∙ good, sort_swap p c d q ne (is_sortable_numbers p c d q good))
      | inr bad ↦ rw (bad, same ∙ bad)
    ]
