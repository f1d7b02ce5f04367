-- ===== src/Examples/UserExamples.antt =====
-- The theorems about creating users, at concrete inputs.
use users.Prelude.{◌≡◌, refl, Bool, some, [], ◌∷◌, codes}
use users.Errors.{ok, err, message, status_from, internal}
use users.Samples.{quiet, plain_base64, empty_world, empty-IsConsistent}
use users.World.{Environment, ◌>>=◌, ◌>>◌, pure, raise, lift, attempt, invoke, statement}
use users.World.Quiet.{IsQuiet}
use users.Username.Rule.{is_username_byte}
use users.Store.Users
use users.Store.Statements.{insert_user}
use users.Store.Rows.{scan_user}
use users.Server.Status.{unspecified}
use users.Server.Admin.{CreateUserRequest, create_user, handle}
use users.Server.Admin.Undo.{create_user-undone}

-- The caller is an administrator, and the identity service is down.
abbrev unregistered : Environment
unregistered = record quiet {
  check = λ clock tuple. ok Bool.true;
  register_identity = λ clock id. err (message "unavailable");
}

unregistered-IsQuiet : IsQuiet unregistered
unregistered-IsQuiet = record { no_fault = λ clock. refl; alone = λ clock db. refl }

abbrev grace : CreateUserRequest
grace = record {
  oidc_subject = codes "grace|3";
  name = codes "Grace";
  nickname = [];
  photo_url = [];
  username = some (codes "grace");
  cluster_role = unspecified;
}

create_user-undone_example :
    (handle unregistered plain_base64 (some ((1 ∷ []) ∷ [])) (create_user grace) empty_world).1.db
    ≡ empty_world.db
unfolding handle ◌>>=◌ ◌>>◌ pure raise lift attempt invoke statement Users.create_user
    Users.delete_user is_username_byte insert_user scan_user
create_user-undone_example =
    create_user-undone unregistered unregistered-IsQuiet plain_base64 (some ((1 ∷ []) ∷ [])) grace
      empty_world empty-IsConsistent
      (status_from internal "register identity" (message "unavailable")) refl
