-- ===== src/Config/Laws.antt =====
-- When there is a configuration, and what it holds.
use users.Prelude.{
  ◌≡◌, ◌≢◌, refl, List, [], ◌∷◌, Bytes, codes, bytes_eq, bytes_eq_iff, All, ap, ◌↔◌, ◌⊎◌,
  Bool-cases, inl, inr,
}
use users.Prelude.Int.{ℤ}
use users.Errors.{Result, ok, ok-injective, ok-split}
use users.Server.Status.{or_error}
use users.Server.Status.Laws.{or_error-ok}
use users.Config.{
  Os, Config, getenv_or, texts, reconciliation_interval, device_liveness_interval, with_database,
  from_env,
}

-- The texts of a configuration.
abbrev pub texts_of : Config → List Bytes
texts_of c =
    c.grpc_address ∷ c.database_url ∷ c.authorization_address ∷ c.identity_address
    ∷ c.ziti_management_address ∷ c.groups_address ∷ c.nats_url ∷ c.group_sync_durable ∷ []

-- time.ParseDuration accepts the two defaults.
pub record ParsesDefaults (os : Os) : Type 0 where
  pub minute : (d : ℤ) × (os.parse_duration (codes "60s") ≡ ok d)
  pub half_minute : (d : ℤ) × (os.parse_duration (codes "30s") ≡ ok d)

getenv_or-ne-nil :
    (os : Os) (name fallback : Bytes) → fallback ≢ [] → getenv_or os name fallback ≢ []
unfolding getenv_or bytes_eq
getenv_or-ne-nil os name fallback h e = elim (Bool-cases (bytes_eq (os.getenv name) [])) [
  | inl f ↦ h (rw f at e)
  | inr f ↦ let empty : os.getenv name ≡ [] = rw f at e in cc (ap (λ t. bytes_eq t []) empty, f)
]

-- A variable that is not set, or is a duration.
abbrev pub Accepts : Os → Bytes → Type 0
Accepts os name = (os.getenv name ≡ []) ⊎ ((d : ℤ) × (os.parse_duration (os.getenv name) ≡ ok d))

module _ (os : Os) (name fallback : Bytes) where
  -- What is parsed for an interval.
  abbrev parsed : Result ℤ
  parsed = os.parse_duration (getenv_or os name fallback)

  parsed-Accepts :
      (d : ℤ) × (os.parse_duration fallback ≡ ok d) → Accepts os name → (d : ℤ) × (parsed ≡ ok d)
  unfolding getenv_or bytes_eq
  parsed-Accepts default (inl unset) = rw (parsed, getenv_or, unset) default
  parsed-Accepts default (inr found) = elim (Bool-cases (bytes_eq (os.getenv name) [])) [
    | inl e ↦ rw (parsed, getenv_or, e) default
    | inr e ↦ rw (parsed, getenv_or, e) found
  ]

  Accepts-parsed : (d : ℤ) → parsed ≡ ok d → Accepts os name
  unfolding getenv_or
  Accepts-parsed d h = elim (Bool-cases (bytes_eq (os.getenv name) [])) [
    | inl e ↦ inl ((bytes_eq_iff (os.getenv name) []).0 e)
    | inr e ↦ inr (d, rw (parsed, getenv_or, e) at h)
  ]

abbrev database_variable : Bytes
database_variable = codes "DATABASE_URL"

texts-ne-nil :
    (os : Os) (database_url : Bytes) (r l : ℤ)
    → database_url ≢ []
    → All (λ t. t ≢ []) (texts_of (texts os database_url r l))
unfolding texts
texts-ne-nil os database_url r l h = (
  getenv_or-ne-nil os (codes "GRPC_ADDRESS") (codes ":50051") (λ e. cc),
  (
    h,
    (
      getenv_or-ne-nil os (codes "AUTHORIZATION_ADDRESS") (codes "authorization:50051") (λ e. cc),
      (
        getenv_or-ne-nil os (codes "IDENTITY_ADDRESS") (codes "identity:50051") (λ e. cc),
        (
          getenv_or-ne-nil os (codes "ZITI_MANAGEMENT_ADDRESS") (codes "ziti-management:50051")
              (λ e. cc),
          (
            getenv_or-ne-nil os (codes "GROUPS_ADDRESS") (codes "groups:50051") (λ e. cc),
            (
              getenv_or-ne-nil os (codes "NATS_URL") (codes "nats://nats:4222") (λ e. cc),
              (
                getenv_or-ne-nil os (codes "GROUP_SYNC_DURABLE") (codes "users-group-sync")
                    (λ e. cc),
                tt,
              ),
            ),
          ),
        ),
      ),
    ),
  ),
)

-- Both intervals, as `from_env` parses them.
abbrev reconciliation : Os → Result ℤ
reconciliation os = parsed os (codes "GROUP_SYNC_RECONCILIATION_INTERVAL") (codes "60s")

abbrev liveness : Os → Result ℤ
liveness os = parsed os (codes "DEVICE_LIVENESS_INTERVAL") (codes "30s")

with_database-ok :
    (os : Os) (database_url : Bytes) {c : Config}
    → with_database os database_url ≡ ok c
    → (r l : ℤ) × (reconciliation os ≡ ok r)
      × (liveness os ≡ ok l)
      × (texts os database_url r l ≡ c)
unfolding with_database reconciliation_interval device_liveness_interval
with_database-ok os database_url {c} h =
    let (r, known, rest) = ok-split (reconciliation_interval os) _ h in
    let (l, known', same) = ok-split (device_liveness_interval os) _ rest in
    (
      r,
      l,
      or_error-ok _ (reconciliation os) known,
      or_error-ok _ (liveness os) known',
      ok-injective same,
    )

with_database-of :
    (os : Os) (database_url : Bytes) {r l : ℤ}
    → reconciliation os ≡ ok r
    → liveness os ≡ ok l
    → with_database os database_url ≡ ok (texts os database_url r l)
unfolding with_database reconciliation_interval device_liveness_interval or_error
with_database-of os database_url h h' = rw (h, h') refl

-- Where time.ParseDuration accepts the defaults of the two intervals, there is a configuration, all of
-- its texts not empty, exactly if DATABASE_URL is set and each interval is not set or a duration.
pub from_env_iff :
    (os : Os)
    → ParsesDefaults os
    → ((c : Config) × (from_env os ≡ ok c) × All (λ t. t ≢ []) (texts_of c)) ↔ (
        (os.getenv database_variable ≢ [])
        × Accepts os (codes "GROUP_SYNC_RECONCILIATION_INTERVAL")
        × Accepts os (codes "DEVICE_LIVENESS_INTERVAL"))
unfolding from_env
from_env_iff os defaults =
    let url = os.getenv database_variable in
    (
      λ found. elim (Bool-cases (bytes_eq url [])) [
        | inl e ↦ absurd (cc (rw e at found.1))
        | inr e ↦
            let (r, l, known, known', same) = with_database-ok os url (rw e at found.1) in
            (
              λ empty. cc (ap (λ t. bytes_eq t []) empty, e),
              Accepts-parsed os (codes "GROUP_SYNC_RECONCILIATION_INTERVAL") (codes "60s") r known,
              Accepts-parsed os (codes "DEVICE_LIVENESS_INTERVAL") (codes "30s") l known',
            )
      ],
      λ (set, accepts, accepts').
          let (r, known) =
            parsed-Accepts os (codes "GROUP_SYNC_RECONCILIATION_INTERVAL") (codes "60s")
              defaults.minute accepts in
          let (l, known') =
            parsed-Accepts os (codes "DEVICE_LIVENESS_INTERVAL") (codes "30s") defaults.half_minute
              accepts' in
          elim (Bool-cases (bytes_eq url [])) [
            | inl e ↦ absurd (set ((bytes_eq_iff url []).0 e))
            | inr e ↦ (
              texts os url r l,
              rw e (with_database-of os url known known'),
              texts-ne-nil os url r l set,
            )
          ],
    )
