-- ===== src/Store/Pagination/Keeps.antt =====
-- The lists only read: they keep what holds of the tables.
use users.Prelude.{Option, List}
use users.Prelude.Int.{ℤ}
use users.World.{Environment}
use users.World.Keeps.{
  Keeps, Stable, Keeps-bind, Keeps-lift, Keeps-pure, Keeps-statement, keeps_rules,
}
use users.Errors.{Result}
use users.Store.Types.{UserId, PageCursor, Database}
use users.Store.Pagination.{list_entities, list_users, list_devices}

module _ (env : Environment) {P : Database → Type 0} (stable : Stable env P) where
  list_entities-Keeps :
      {Row T : Type 0} (select : Database → List Row) (row_id : Row → UserId)
      (cursor : Option PageCursor) (size : ℤ) (scan : Row → Result T) (id_of : T → UserId)
      → Keeps P (list_entities env select row_id cursor size scan id_of)
  unfolding list_entities
  list_entities-Keeps select row_id cursor size scan id_of =
      Keeps-bind _ _ (Keeps-statement env _ stable (λ _ _ db h. h))
        (λ rows. Keeps-bind _ _ (Keeps-lift _) (λ page. Keeps-pure _))

  pub list_users-Keeps :
      (size : ℤ) (cursor : Option PageCursor) → Keeps P (list_users env size cursor)
  unfolding list_users
  list_users-Keeps size cursor = search (keeps_rules, list_entities-Keeps)

  pub list_devices-Keeps :
      (id : UserId) (size : ℤ) (cursor : Option PageCursor)
      → Keeps P (list_devices env id size cursor)
  unfolding list_devices
  list_devices-Keeps id size cursor = search (keeps_rules, list_entities-Keeps)
