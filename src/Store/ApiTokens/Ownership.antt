-- ===== src/Store/ApiTokens/Ownership.antt =====
-- `RevokeAPIToken` touches only what the caller owns.
use users.Prelude.{ℕ, ◌≡◌, refl, ◌∙◌, List}
use users.World.{Environment, World}
use users.World.Keeps.{Keeps, Stable, Keeps-bind, Keeps-statement, keeps_rules}
use users.Store.Types.{UserId, ApiTokenRow, Database}
use users.Store.Ownership.{others_tokens, delete_api_token_rows-others}
use users.Store.ApiTokens.{revoke_api_token, after_revoke}

module _ (env : Environment) (id : UserId) (kept : List ApiTokenRow) where
  abbrev pub OthersKeep : Database → Type 0
  OthersKeep db = others_tokens id db ≡ kept

  after_revoke-Keeps : (n : ℕ) → Keeps OthersKeep (after_revoke n)
  unfolding after_revoke
  after_revoke-Keeps n = search keeps_rules

  revoke-Keeps :
      Stable env OthersKeep
      → (token_id : UserId) → Keeps OthersKeep (revoke_api_token env id token_id)
  unfolding revoke_api_token
  revoke-Keeps stable token_id =
      Keeps-bind _ _
        (Keeps-statement env _ stable (λ _ _ db h. delete_api_token_rows-others token_id id db ∙ h))
        after_revoke-Keeps

-- Whatever token id a user asks to revoke, the tokens of all other users are left as they were, where
-- other sessions leave them.
pub revoke_api_token-others :
    (env : Environment) (id token_id : UserId) (w : World)
    → ((clock : ℕ) (db : Database) → others_tokens id (env.before clock db) ≡ others_tokens id db)
    → others_tokens id (revoke_api_token env id token_id w).1.db ≡ others_tokens id w.db
revoke_api_token-others env id token_id w alone =
    (revoke-Keeps env id (others_tokens id w.db) (λ clock db h. alone clock db ∙ h) token_id).at w
      refl
