-- ===== src/Errors.antt =====
-- internal/store/errors.go, the gRPC status codes, and the error values that the service passes on.
-- A Go result pair (value, error) is a `Result`; an `error` alone is an `Option Error`, `none` for nil.
use Prim.Native.String.{String}
use users.Prelude.{Bool, true, false, Option, none, some, ◌≡◌, refl, ◌⊎◌, inl, inr}

-- google.golang.org/grpc/codes
pub data Code : Type 0 where
  canceled unknown invalid_argument deadline_exceeded not_found already_exists : Code
  permission_denied resource_exhausted failed_precondition aborted out_of_range : Code
  unimplemented internal unavailable data_loss unauthenticated : Code

pub data Error : Type 0 where
  -- errors.New, and fmt.Errorf with no %w: the constant part of the message
  message : String → Error
  -- NotFoundError and AlreadyExistsError
  not_found : (resource : String) → Error
  already_exists : (resource : String) → Error
  -- pgx.ErrNoRows, and a PgError with code 23505 or 23503 and its constraint
  no_rows : Error
  unique_violation : (constraint : String) → Error
  foreign_key_violation : (constraint : String) → Error
  -- a gRPC status error: status.Error(c, m), and status.Errorf(c, "m: %v", cause)
  status : Code → String → Error
  status_from : Code → String → Error → Error
  -- fmt.Errorf("m: %w", cause)
  wrap : String → Error → Error

pub data Result {ℓ} (A : Type ℓ) : Type ℓ where
  err : Error → Result A
  ok : A → Result A

infixl 5 ◌>>=◌
-- `if err != nil { return …, err }` behind a call.
abbrev pub ◌>>=◌ {ℓ} : {A B : Type ℓ} → Result A → (A → Result B) → Result B
err e >>= rest = err e
ok value >>= rest = rest value

-- Where the whole succeeds, the call did, and so did the rest with its value.
pub ok-split {ℓ} :
    {A B : Type ℓ} (call : Result A) (rest : A → Result B) {result : B}
    → (call >>= rest) ≡ ok result
    → (value : A) × (call ≡ ok value) × (rest value ≡ ok result)
ok-split (err e) rest same = cc
ok-split (ok value) rest same = (value, refl, same)

pub ok-injective {ℓ} : {A : Type ℓ} {a b : A} → ok a ≡ ok b → a ≡ b
ok-injective e = cc

pub Result-cases {ℓ} :
    {A : Type ℓ} (r : Result A) → ((e : Error) × (r ≡ err e)) ⊎ ((a : A) × (r ≡ ok a))
Result-cases (err e) = inl (e, refl)
Result-cases (ok a) = inr (a, refl)

-- errors.As(err, &notFound), through the wrapped errors
unfoldable pub as_not_found : Error → Option String
as_not_found (Error.not_found r) = some r
as_not_found (wrap m e) = as_not_found e
as_not_found _ = none

-- errors.As(err, &exists)
unfoldable pub as_already_exists : Error → Option String
as_already_exists (Error.already_exists r) = some r
as_already_exists (wrap m e) = as_already_exists e
as_already_exists _ = none

-- errors.Is(err, pgx.ErrNoRows)
unfoldable pub is_no_rows : Error → Bool
is_no_rows no_rows = true
is_no_rows (wrap m e) = is_no_rows e
is_no_rows _ = false

-- errors.As(err, &pgErr) && pgErr.Code == "23505", with pgErr.ConstraintName
unfoldable pub as_unique_violation : Error → Option String
as_unique_violation (unique_violation c) = some c
as_unique_violation (wrap m e) = as_unique_violation e
as_unique_violation _ = none

-- status.Code(err) of a non-nil error
unfoldable pub status_code : Error → Code
status_code (status c m) = c
status_code (status_from c m e) = c
status_code (wrap m e) = status_code e
status_code _ = unknown

-- status.Error or status.Errorf made the error.
abbrev pub is_status : Error → Bool
is_status (status c m) = true
is_status (status_from c m e) = true
is_status _ = false

pub err-is_status :
    {A : Type 0} (d e : Error)
    → ◌≡◌ {A = Result A} (err d) (err e)
    → is_status d ≡ true
    → is_status e ≡ true
err-is_status d e same h = cc (h, same)
