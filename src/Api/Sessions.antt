-- ===== src/Api/Sessions.antt =====
-- What the tokens of `login` are good for.
use open_mesh_ai.Prelude.{ℕ, ◌+◌, ◌*◌, ◌<◌, ◌≡◌, ◌≢◌, some, List, [], ◌∷◌, All}
use open_mesh_ai.Db.Models.{User}
use open_mesh_ai.Db.Session.{Db}
use open_mesh_ai.Api.Auth.{TokenKind}
use open_mesh_ai.Api.Tokens.{Jwt, TokenSettings, ttl_of, claims_of}

abbrev pub HaveOwnIds : List User → Type 0
HaveOwnIds [] = Unit
HaveOwnIds (u ∷ us) = All (λ (v : User). v.id ≢ u.id) us × HaveOwnIds us

abbrev pub expiry : TokenSettings → ℕ → TokenKind → ℕ
expiry settings now kind = now + 60 * ttl_of settings kind

-- The library reads back the tokens of the user that it made, until they expire.
abbrev pub ReadsBack : Jwt → TokenSettings → ℕ → ℕ → User → Type 0
ReadsBack jwt settings now later u =
    (kind : TokenKind)
    → later < expiry settings now kind
    → jwt.decode later (jwt.encode (claims_of kind u (expiry settings now kind)))
      ≡ some (claims_of kind u (expiry settings now kind))
