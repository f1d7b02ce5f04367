-- ===== src/Server/Devices/Undo.antt =====
-- What is undone where a device cannot be stored.
use users.Prelude.{
  ◌≡◌, refl, ◌∙◌, ap, Bool, true, false, [], ◌∷◌, ◌++◌, Bytes, bytes_eq, not, ◌&&◌, &&-eq_true,
  Bool-cases, arith, inl, inr, if◌then◌else◌,
}
use users.Errors.{Result, ok, err, Result-cases}
use users.World.{
  Environment, World, ZitiIdentity, delete_device_identity, pure, raise, attempt, statement, invoke,
  then_, ◌>>=◌, ◌>>◌,
}
use users.World.Runs.{bind-of_attempt}
use users.Store.Types.{UserId, CreateDeviceInput}
use users.Store.Devices
use users.Store.Rows.{scan_device}
use users.Store.Statements.{insert_device}
use users.World.Calls.{statement-calls, lift-calls}
use users.Server.Users.{require}
use users.Server.Devices.{ziti_delete, after_insert, store_device}

abbrev pub is_error : {A : Type 0} → Result A → Bool
is_error (err e) = true
is_error (ok a) = false

-- The input of the store.
abbrev pub device_input : UserId → Bytes → ZitiIdentity → CreateDeviceInput
device_input user_id name identity = record {
  identity_id = user_id;
  name = name;
  open_ziti_identity_id = identity.ziti_identity_id;
  enrollment_jwt = identity.enrollment_jwt;
}

create_device-calls :
    (env : Environment) (input : CreateDeviceInput) (w : World)
    → (Devices.create_device env input w).1.calls ≡ w.calls
unfolding Devices.create_device
create_device-calls env input w =
    lift-calls (statement env (λ id now db. insert_device id now input db)) scan_device w
    ∙ statement-calls env (λ id now db. insert_device id now input db) w

-- OpenZiti answered with an id and an enrollment token.
abbrev pub is_complete : ZitiIdentity → Bool
is_complete identity =
    not (bytes_eq identity.ziti_identity_id []) && not (bytes_eq identity.enrollment_jwt [])

module _ (env : Environment) (user_id : UserId) (name : Bytes) (identity : ZitiIdentity)
    (w : World) where
  store_device-run :
      is_complete identity ≡ true
      → store_device env user_id name identity w
        ≡ (attempt (Devices.create_device env (device_input user_id name identity))
              >>= after_insert env identity.ziti_identity_id)
            w
  unfolding store_device require pure ◌>>=◌ ◌>>◌ then_
  store_device-run complete =
      let (known, token) =
        &&-eq_true (not (bytes_eq identity.ziti_identity_id []))
          (not (bytes_eq identity.enrollment_jwt [])) complete in
      rw (known, token) refl

  store_device-incomplete :
      is_complete identity ≡ false → (store_device env user_id name identity w).1.calls ≡ w.calls
  unfolding store_device require pure raise ◌>>=◌ ◌>>◌ then_
  store_device-incomplete missing = elim (Bool-cases (bytes_eq identity.ziti_identity_id [])) [
    | inl e ↦ rw e refl
    | inr e ↦ elim (Bool-cases (bytes_eq identity.enrollment_jwt [])) [
      | inl f ↦ rw (e, f) refl
      | inr f ↦ absurd (ground (arith, missing, e, f))
    ]
  ]

  -- Storing a device asks OpenZiti to delete the new identity, once, exactly if it ends in an error
  -- and OpenZiti had answered with both an id and an enrollment token; it makes no other call. In
  -- particular, an identity that came without an enrollment token is left in OpenZiti.
  pub store_device-undone : (store_device env user_id name identity w).1.calls ≡ (
      if is_complete identity && is_error (store_device env user_id name identity w).0
      then w.calls ++ delete_device_identity identity.ziti_identity_id ∷ []
      else w.calls)
  store_device-undone = elim (Bool-cases (is_complete identity)) [
    | inr missing ↦ rw missing (store_device-incomplete missing)
    | inl complete ↦
        let input = device_input user_id name identity in
        let w1 = (Devices.create_device env input w).1 in
        let called = create_device-calls env input w in
        elim (Result-cases (Devices.create_device env input w).0) [
          | inl (e, failed) ↦
              let run =
                store_device-run complete
                ∙ bind-of_attempt (Devices.create_device env input)
                    (after_insert env identity.ziti_identity_id) w w1 (ap (λ r. (r, w1)) failed) in
              rw (complete, run)
                (unfold after_insert ziti_delete ◌>>=◌ attempt invoke raise then_ in
                  ap (λ c. c ++ delete_device_identity identity.ziti_identity_id ∷ []) called)
          | inr (device, stored) ↦
              let run =
                store_device-run complete
                ∙ bind-of_attempt (Devices.create_device env input)
                    (after_insert env identity.ziti_identity_id) w w1 (ap (λ r. (r, w1)) stored) in
              rw (complete, run) (unfold after_insert pure in called)
        ]
  ]
