-- ===== src/Samples.antt =====
-- Values that the examples run with: an environment in which nothing fails and nobody else writes,
-- and a small database.
use users.Prelude.{
  ℕ, zero, suc, ◌<◌, ◌≡◌, ◌≢◌, refl, Bool, none, some, [], ◌∷◌, Bytes, codes, leb, arith,
}
use users.Errors.{Result, ok, err, message}
use users.Digest.{constant_digest}
use users.Username.Candidates.{Entropy}
use users.Store.Types.{User, UserId, UserRow, UserInput}
use users.Store.Pagination.{Base64}
use users.Store.Consistent.{IsConsistent}
use users.World.Quiet.{IsQuiet}
use users.World.{Environment, World, Uuids}

abbrev draw_zero : ℕ → Result ℕ
draw_zero zero = err (message "no range")
draw_zero (suc n) = ok 0

pub draw_zero-lt : (max n : ℕ) → draw_zero max ≡ ok n → n < max
draw_zero-lt zero n e = cc
draw_zero-lt (suc m) n e = ground (arith, e)

abbrev pub zero_entropy : Entropy
zero_entropy = record {
  rand_int = λ call draw max. draw_zero max;
  in_range = λ call draw max n e. draw_zero-lt max n e;
}

abbrev parse_byte : Bytes → Result UserId
parse_byte (n ∷ []) = ok n
parse_byte _ = err (message "invalid UUID")

pub one_not_nil : (id : UserId) → (id ∷ []) ≢ []
one_not_nil id e = cc

-- An id is written as one number.
abbrev pub short_uuids : Uuids
short_uuids = record {
  to_string = λ id. id ∷ [];
  parse = parse_byte;
  parse-to_string = λ id. refl;
  to_string-ne-nil = one_not_nil;
}

abbrev pub plain_base64 : Base64
plain_base64 = record {
  encode = λ s. s;
  decode = λ s. ok s;
  decode-encode = λ s. refl;
  encode-ne-nil = λ s h. h;
}

abbrev pub first_byte_le : Bytes → Bytes → Bool
first_byte_le [] t = Bool.true
first_byte_le (x ∷ s) [] = Bool.false
first_byte_le (x ∷ s) (y ∷ t) = leb x y

abbrev pub quiet : Environment
quiet = record {
  uuids = short_uuids;
  digest = constant_digest;
  entropy = zero_entropy;
  unicode_lower = λ c. c;
  before = λ clock db. db;
  fault = λ clock. none;
  fresh_uuid = λ clock. clock;
  now = λ clock. clock;
  text_le = first_byte_le;
  random_bytes = λ clock. err (message "no random source");
  check = λ clock tuple. ok Bool.false;
  write = λ clock writes deletes. ok tt;
  list_objects = λ clock type relation user. ok [];
  register_identity = λ clock id. ok tt;
  create_device_identity = λ clock user name attributes. err (message "unavailable");
  delete_device_identity = λ clock id. ok tt;
  patch_role_attributes = λ clock id add remove. ok tt;
  get_liveness = λ clock id. err (message "unavailable");
  has_groups_client = Bool.true;
  list_member_groups = λ clock member organization token. err (message "unavailable");
}

abbrev pub empty_world : World
empty_world = record {
  db = record { users = []; api_tokens = []; devices = [] };
  clock = 0;
  calls = [];
}

abbrev pub ada : UserInput
ada = record {
  oidc_subject = codes "ada|1";
  name = codes "Ada";
  email = codes "ada@example.org";
  nickname = [];
  username = codes "ada";
  photo_url = [];
}

abbrev pub ada_row : UserRow
ada_row = record {
  identity_id = 1;
  oidc_subject = codes "ada|1";
  name = codes "Ada";
  email = codes "ada@example.org";
  nickname = [];
  username = some (codes "ada");
  photo_url = [];
  created_at = 1;
  updated_at = 1;
}

abbrev pub adam_row : UserRow
adam_row = record ada_row {
  identity_id = 2;
  oidc_subject = codes "adam|2";
  username = some (codes "adam");
}

abbrev pub ada_user : User
ada_user = record {
  meta = record { id = 1; created_at = 1; updated_at = 1 };
  oidc_subject = codes "ada|1";
  name = codes "Ada";
  email = codes "ada@example.org";
  nickname = [];
  username = codes "ada";
  photo_url = [];
}

pub quiet-IsQuiet : IsQuiet quiet
quiet-IsQuiet = record { no_fault = λ clock. refl; alone = λ clock db. refl }

pub empty-IsConsistent : IsConsistent empty_world.db
empty-IsConsistent = record {
  users = tt;
  api_tokens = tt;
  devices = tt;
  token_owners = tt;
  device_owners = tt;
}
