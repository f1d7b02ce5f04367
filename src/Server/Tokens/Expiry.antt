-- ===== src/Server/Tokens/Expiry.antt =====
-- Tokens and the time.
use users.Prelude.{
  ◌≡◌, sym, ◌∙◌, ap, false, not, Bool-cases, inl, inr, Bytes, bytes_eq, Option, none, some, [],
  arith,
}
use users.Errors.{ok, status, invalid_argument, ok-injective}
use users.World.{Environment, World, pure, raise, current_time, ◌>>=◌, ◌>>◌}
use users.World.Runs.{bind-ok}
use users.Store.Types.{Time, ApiToken}
use users.Store.ApiTokens
use users.Store.ApiTokens.RoundTrip.{Live}
use users.Server.Status.{to_status_error}
use users.Server.Status.Laws.{or_fail-ok}
use users.Server.Users.{require}
use users.Server.Proto.{ProtoApiToken, to_proto_api_token}
use users.Server.Tokens.{is_expired, unexpired, resolve_api_token}

is_expired-Live :
    (now : Time) (expires_at : Option Time)
    → is_expired now expires_at ≡ false
    → Live now expires_at
unfolding is_expired
is_expired-Live now none h = tt
is_expired-Live now (some t) h = ground (arith, h)

module _ (env : Environment) where
  -- The comparison takes no step of the clock, so the time that it read is that of the answer.
  unexpired-Live :
      (token : ApiToken) (w : World) (answer : Bytes × ProtoApiToken)
      → ((current_time env >>= unexpired env token) w).0 ≡ ok answer
      → Live (env.now ((current_time env >>= unexpired env token) w).1.clock) answer.1.expires_at
  unfolding ◌>>=◌ current_time unexpired to_proto_api_token pure raise
  unexpired-Live token w answer h =
      elim (Bool-cases (is_expired (env.now w.clock) token.expires_at)) [
        | inl e ↦ absurd (cc (rw e at h))
        | inr e ↦
            let same = ok-injective (rw (unexpired, e) at h) in
            rw (e, ← same) (is_expired-Live (env.now w.clock) token.expires_at e)
      ]

  -- `ResolveAPIToken` answers only with a token that has no time of expiry or whose time is still to
  -- come at the moment in which it answers.
  pub resolve_api_token-Unexpired :
      (token_hash : Bytes) (w : World) (answer : Bytes × ProtoApiToken)
      → (resolve_api_token env token_hash w).0 ≡ ok answer
      → Live (env.now (resolve_api_token env token_hash w).1.clock) answer.1.expires_at
  unfolding resolve_api_token ◌>>◌
  resolve_api_token-Unexpired token_hash w answer h =
      let (u, named, run) =
        bind-ok
          (require (not (bytes_eq token_hash []))
            (status invalid_argument "token_hash must be provided"))
          _ w h in
      let w1 =
        (require (not (bytes_eq token_hash []))
          (status invalid_argument "token_hash must be provided") w).1 in
      let (token, found, rest) =
        or_fail-ok to_status_error (ApiTokens.resolve_api_token env token_hash)
          (λ token. current_time env >>= unexpired env token) w1 (ap (λ r. r.0) (sym run) ∙ h) in
      let ran = run ∙ rest in
      rw ran (
        unexpired-Live token (ApiTokens.resolve_api_token env token_hash w1).1 answer
          (ap (λ r. r.0) (sym ran) ∙ h))
