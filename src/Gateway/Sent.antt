-- ===== src/Gateway/Sent.antt =====
-- What reaches the coordinator through pool-gateway/app/main.py, and for whom.
use open_mesh_ai.Prelude.{
  ℕ, suc, ◌≤◌, ◌≡◌, refl, Option, none, some, List, [], ◌∷◌, String, length, codes, ltb, All, ◌⊎◌,
  inl, inr, ap, ◌∙◌, Bool-cases, Option-cases, arith,
}
use open_mesh_ai.Json.{Json, Fields}
use open_mesh_ai.Gateway.Jobs.{
  Outcome, done, refused, raised, failed, waiting, Request, post_job, created_body, run_job,
}
use open_mesh_ai.Gateway.Settings.{client_of}
use open_mesh_ai.Gateway.Clients.{Sender, State, checked, after_key, get_client_id}
use open_mesh_ai.RateLimit.Limiter.{Limiter}
use open_mesh_ai.RateLimit.Gateway.{Check, passes, too_many_requests}
use open_mesh_ai.Gateway.Endpoints.{
  RankRequest, rank_fields, too_long, Exchange, with_client, ran, rank,
}

too_long-All :
    (idx : ℕ) (texts : List String)
    → too_long idx texts ≡ none
    → All (λ t. length (codes t) ≤ 10_000) texts
too_long-All idx [] h = tt
too_long-All idx (t ∷ ts) h = elim (Bool-cases (ltb 10_000 (length (codes t)))) [
  | inl long ↦ let bad = rw long at h in cc
  | inr short ↦ (ground arith, too_long-All (suc idx) ts (rw short at h))
]

done_inj : {A : Type 0} {a b : A} → ◌≡◌ {A = Outcome A} (done a) (done b) → a ≡ b
done_inj e = cc

checked-done :
    (client_id found : String) (o : Check × Limiter) (g : State)
    → (checked client_id o g).0 ≡ done found
    → client_id ≡ found
checked-done client_id found (passes, l) g h = done_inj h
checked-done client_id found (too_many_requests, l) g h = cc

after_key-done :
    (then_now : ℕ) (s : Sender) (client_id found : String) (o : Check × Limiter) (g : State)
    → (after_key then_now s client_id o g).0 ≡ done found
    → client_id ≡ found
after_key-done then_now s client_id found (passes, l) g h = checked-done client_id found _ _ h
after_key-done then_now s client_id found (too_many_requests, l) g h = cc

done-known :
    (now then_now : ℕ) (s : Sender) (g : State) (client_id : String)
    → (get_client_id now then_now s g).0 ≡ done client_id
    → client_of s.x_api_key g.api_keys ≡ some client_id
unfolding get_client_id
done-known now then_now s g client_id h = elim (Option-cases (client_of s.x_api_key g.api_keys)) [
  | inl absent ↦
      let bad : ◌≡◌ {A = Outcome String} (refused 401 "Invalid API key") (done client_id) =
        rw (absent, get_client_id) at h in
      cc
  | inr (c, there) ↦
      there ∙ ap some (after_key-done then_now s c client_id _ g (rw (there, get_client_id) at h))
]

with_client-sent :
    (handler : String → Outcome (Option Json) × List Request) (who : Outcome String × State)
    → ((with_client handler who).0.1 ≡ [])
      ⊎ ((client_id : String) × (who.0 ≡ done client_id)
          × ((with_client handler who).0.1 ≡ (handler client_id).1))
with_client-sent handler (done client_id, g) = inr (client_id, refl, refl)
with_client-sent handler (refused code detail, g) = inl refl
with_client-sent handler (raised code, g) = inl refl
with_client-sent handler (failed, g) = inl refl
with_client-sent handler (waiting, g) = inl refl

ran-posts :
    (x : Exchange) (client_id job_type : String) (payload : Fields)
    → (later : List Request) × ((ran x client_id job_type payload).1
        ≡ post_job (created_body client_id job_type payload x.request_id) ∷ later)
unfolding run_job
ran-posts x client_id job_type payload = (_, refl)

-- A rank request sends nothing, or it sends the job of the client to whom the gateway gave its key, with
-- the query and the texts, none of which is longer than 10000 characters.
pub rank_sent :
    (x : Exchange) (s : Sender) (payload : RankRequest) (g : State)
    → let sent = (rank x s payload g).0.1 in
      (sent ≡ [])
      ⊎ ((client_id : String) × (later : List Request) × (client_of s.x_api_key g.api_keys
            ≡ some client_id)
          × All (λ t. length (codes t) ≤ 10_000) payload.texts
          × (sent
              ≡ post_job (created_body client_id "rank" (rank_fields payload) x.request_id)
                ∷ later))
unfolding rank
rank_sent x s payload g = elim (with_client-sent _ (get_client_id x.now x.then_now s g)) [
  | inl nothing ↦ inl nothing
  | inr (client_id, given, same) ↦ elim (Option-cases (too_long 0 payload.texts)) [
    | inl short ↦
        let (later, posts) = ran-posts x client_id "rank" (rank_fields payload) in
        inr (
          client_id,
          later,
          done-known x.now x.then_now s g client_id given,
          too_long-All 0 payload.texts short,
          same ∙ rw short posts,
        )
    | inr (idx, long) ↦ inl (same ∙ rw long refl)
  ]
]
