-- ===== src/Store/Query.antt =====
-- internal/store/query_helpers.go: the UPDATE statement that is built from the fields of an update.
use Prim.Native.String.{String}
use users.Prelude.{ℕ, ◌+◌, Bool, true, false, List, [], ◌∷◌, ◌++◌, map, Bytes, codes, length}
use users.Prelude.Decimal.{decimal}
use users.Store.Types.{UserId}

-- A value that is bound to a placeholder.
pub data Arg : Type 0 where
  bytes : Bytes → Arg
  uuid : UserId → Arg

-- `field = $placeholder`, or the clause that sets the time of the update.
pub data SetClause : Type 0 where
  assign : (field : String) (placeholder : ℕ) → SetClause
  updated_at_now : SetClause

pub record UpdateBuilder : Type 0 where
  pub set_clauses : List SetClause
  pub args : List Arg

pub record UpdateQuery : Type 0 where
  pub table : String
  pub set_clauses : List SetClause
  pub id_column : String
  pub id_placeholder : ℕ
  pub returning : String
  pub args : List Arg

abbrev pub empty_builder : UpdateBuilder
empty_builder = record { set_clauses = []; args = [] }

unfoldable pub add : UpdateBuilder → String → Arg → UpdateBuilder
add b field value =
    let placeholder = length b.args + 1 in
    record {
      set_clauses = b.set_clauses ++ assign field placeholder ∷ [];
      args = b.args ++ value ∷ [];
    }

unfoldable pub is_empty : UpdateBuilder → Bool
is_empty b = elim b.set_clauses [ [] ↦ true | _ ↦ false ]

unfoldable pub build_update_query :
    String → String → String → List SetClause → List Arg → UserId → UpdateQuery
build_update_query table returning id_column set_clauses args id = record {
  table = table;
  set_clauses = set_clauses ++ updated_at_now ∷ [];
  id_column = id_column;
  id_placeholder = length (args ++ uuid id ∷ []);
  returning = returning;
  args = args ++ uuid id ∷ [];
}

unfoldable pub build : UpdateBuilder → String → String → String → UserId → UpdateQuery
unfolding build_update_query
build b table returning id_column id =
    build_update_query table returning id_column b.set_clauses b.args id

clause_text : SetClause → Bytes
clause_text (assign field placeholder) = codes field ++ codes " = $" ++ decimal placeholder
clause_text updated_at_now = codes "updated_at = NOW()"

-- strings.Join(parts, ", ")
join_commas : List Bytes → Bytes
join_commas [] = []
join_commas (p ∷ []) = p
join_commas (p ∷ q ∷ ps) = p ++ codes ", " ++ join_commas (q ∷ ps)

-- The text that is sent to the database.
unfoldable query_text : UpdateQuery → Bytes
unfolding clause_text join_commas
query_text q =
    codes "UPDATE "
    ++ (codes q.table
        ++ (codes " SET "
            ++ (join_commas (map clause_text q.set_clauses)
                ++ (codes " WHERE "
                    ++ (codes q.id_column
                        ++ (codes " = $"
                            ++ (decimal q.id_placeholder
                                ++ (codes " RETURNING " ++ codes q.returning))))))))
