-- ===== src/Persistence/Texts.antt =====
-- app/Entities/odb/User-odb.cxx and User-odb.hxx: the statements, and the columns of a query.
use ccfolio.Common.{List, [], ◌∷◌, ◌++◌, Bool, if◌then◌else◌}
use ccfolio.Common.Text.{Str, text}
use ccfolio.External.Pgsql.{Cell, Statement, Oid, text_oid, int4_oid}

abbrev pub persist_statement_name : Str
persist_statement_name = text "persist_User"

abbrev pub find_statement_name : Str
find_statement_name = text "find_User"

abbrev pub update_statement_name : Str
update_statement_name = text "update_User"

abbrev pub erase_statement_name : Str
erase_statement_name = text "erase_User"

abbrev pub query_statement_name : Str
query_statement_name = text "query_User"

abbrev pub erase_query_statement_name : Str
erase_query_statement_name = text "erase_query_User"

abbrev pub persist_statement_types : List Oid
persist_statement_types = text_oid ∷ text_oid ∷ text_oid ∷ []

abbrev pub find_statement_types : List Oid
find_statement_types = int4_oid ∷ []

abbrev pub update_statement_types : List Oid
update_statement_types = text_oid ∷ text_oid ∷ text_oid ∷ int4_oid ∷ []

abbrev pub persist_statement_text : Str
persist_statement_text =
    text
      "INSERT INTO \"User\" (\"id\", \"username\", \"passwordHash\", \"salt\") VALUES (DEFAULT, $1, $2, $3) RETURNING \"id\""

abbrev pub find_statement_text : Str
find_statement_text =
    text
      "SELECT \"User\".\"id\", \"User\".\"username\", \"User\".\"passwordHash\", \"User\".\"salt\" FROM \"User\" WHERE \"User\".\"id\"=$1"

abbrev pub update_statement_text : Str
update_statement_text =
    text "UPDATE \"User\" SET \"username\"=$1, \"passwordHash\"=$2, \"salt\"=$3 WHERE \"id\"=$4"

abbrev pub erase_statement_text : Str
erase_statement_text = text "DELETE FROM \"User\" WHERE \"id\"=$1"

-- The statements of `pgsql::object_statements`. That of the deletion has the types of `find`.
abbrev pub persist_statement : Statement
persist_statement = record {
  name = persist_statement_name;
  text = persist_statement_text;
  types = persist_statement_types;
}

abbrev pub find_statement : Statement
find_statement = record {
  name = find_statement_name;
  text = find_statement_text;
  types = find_statement_types;
}

abbrev pub update_statement : Statement
update_statement = record {
  name = update_statement_name;
  text = update_statement_text;
  types = update_statement_types;
}

abbrev pub erase_statement : Statement
erase_statement = record {
  name = erase_statement_name;
  text = erase_statement_text;
  types = find_statement_types;
}

abbrev pub query_statement : Str
query_statement =
    text
      "SELECT \"User\".\"id\", \"User\".\"username\", \"User\".\"passwordHash\", \"User\".\"salt\" FROM \"User\""

abbrev pub erase_query_statement : Str
erase_query_statement = text "DELETE FROM \"User\""

abbrev pub table_name : Str
table_name = text "\"User\""

-- `pgsql::query_column`: the table and the column.
pub record QueryColumn : Type 0 where
  pub table : Str
  pub column : Str

-- The four members of `query_columns`, over the name of the table.
module _ (table : Str) where
  abbrev pub id_column : QueryColumn
  id_column = record { table = table; column = text "\"id\"" }

  abbrev pub username_column : QueryColumn
  username_column = record { table = table; column = text "\"username\"" }

  abbrev pub password_hash_column : QueryColumn
  password_hash_column = record { table = table; column = text "\"passwordHash\"" }

  abbrev pub salt_column : QueryColumn
  salt_column = record { table = table; column = text "\"salt\"" }

-- `pgsql::query_base`: whether it is empty, its clause, and its parameters with their types.
pub record QueryBase : Type 0 where
  pub is_empty : Bool
  pub clause : Str
  pub types : List Oid
  pub parameters : List Cell

-- The statement that `query` makes of a condition.
unfoldable pub query_of : QueryBase → Statement
query_of q = record {
  name = query_statement_name;
  text = if q.is_empty then query_statement else query_statement ++ text " " ++ q.clause;
  types = q.types;
}

-- The same for `erase_query`.
unfoldable pub erase_query_of : QueryBase → Statement
erase_query_of q = record {
  name = erase_query_statement_name;
  text =
      if q.is_empty then erase_query_statement else erase_query_statement ++ text " " ++ q.clause;
  types = q.types;
}
