-- ===== src/Migrator/Operations/Cluster.antt =====
-- Where the name of the cluster stands in the statement of an operation, the statements of
-- cmd/signozschemamigrator/schema_migrator.
use Prim.Native.String.{◌++◌}
use text.Mathlib.TextBridge.{IsPrefix}
use text.Mathlib.TextLemmas.{append_assoc, append-nil}
use k_o11y_otel_gateway.Prelude.{String, Bool, true, false, Option, none, some, ◌≡◌, arith}
use k_o11y_otel_gateway.Migrator.Text.{clause, qualified}
use k_o11y_otel_gateway.Migrator.Columns.{column_sql, columns_sql}
use k_o11y_otel_gateway.Migrator.Column.Modify.{modified_column}
use k_o11y_otel_gateway.Migrator.Operations.{
  Operation, add_column, drop_column, modify_column, modify_column_remove,
  modify_column_modify_settings, modify_column_reset_settings, materialize_column, add_index,
  drop_index, materialize_index, clear_index, create_projection, drop_projection, create_table,
  drop_table, truncate_table, modify_ttl, drop_ttl, modify_settings, create_materialized_view,
  modify_query_materialized_view, insert_into_table, on_cluster, traits, to_sql,
}

-- The statements that name the cluster: all but two.
unfoldable pub names_cluster : Operation → Bool
names_cluster (create_projection a) = false
names_cluster (insert_into_table a) = false
names_cluster o = true

-- The words that a statement begins with.
unfoldable pub verb : Operation → String
verb (create_table a) = "CREATE TABLE IF NOT EXISTS "
verb (drop_table a) = "DROP TABLE IF EXISTS "
verb (truncate_table a) = "TRUNCATE TABLE IF EXISTS "
verb (create_materialized_view a) = "CREATE MATERIALIZED VIEW IF NOT EXISTS "
verb (insert_into_table a) = "INSERT INTO "
verb o = "ALTER TABLE "

-- The verb, the table that the operation answers with, and the cluster.
abbrev pub head : String → Operation → String
head c o =
    verb o ++ qualified (traits o).queue_database (traits o).queue_table ++ clause " ON CLUSTER " c

-- The text begins with the given words; nothing is asked when printing panicked.
abbrev pub Begins : String → Option String → Type 0
Begins h none = Unit
Begins h (some s) = IsPrefix h s

begins-text : (v q k r : String) → IsPrefix (v ++ q ++ k) (v ++ q ++ k ++ r)
begins-text v q k r = (r, rw (append_assoc, append_assoc))

begins-end : (v q k : String) → IsPrefix (v ++ q ++ k) (v ++ q ++ k)
begins-end v q k = ("", append-nil (v ++ q ++ k))

Begins-option :
    {A : Type 0} (v q k : String) (x : Option A) (r : A → String)
    → Begins (v ++ q ++ k) (elim x [ none ↦ none | some a ↦ some (v ++ q ++ k ++ r a) ])
Begins-option v q k none r = tt
Begins-option v q k (some a) r = begins-text v q k (r a)

-- The statement of an operation that was given a cluster begins with the operation's verb, its table
-- and ON CLUSTER with the cluster, for all operations but the creation of a projection and the insert,
-- when printing does not panic.
pub to_sql-on_cluster :
    (c : String) (o : Operation)
    → names_cluster o ≡ true
    → Begins (head c o) (to_sql (on_cluster c o))
unfolding to_sql on_cluster traits verb names_cluster
to_sql-on_cluster c (add_column a) e =
    Begins-option "ALTER TABLE " _ (clause " ON CLUSTER " c) (column_sql a.column) _
to_sql-on_cluster c (drop_column a) e = begins-text "ALTER TABLE " _ (clause " ON CLUSTER " c) _
to_sql-on_cluster c (modify_column a) e =
    Begins-option "ALTER TABLE " _ (clause " ON CLUSTER " c) (modified_column a.column) _
to_sql-on_cluster c (modify_column_remove a) e =
    begins-text "ALTER TABLE " _ (clause " ON CLUSTER " c) _
to_sql-on_cluster c (modify_column_modify_settings a) e =
    begins-text "ALTER TABLE " _ (clause " ON CLUSTER " c) _
to_sql-on_cluster c (modify_column_reset_settings a) e =
    begins-text "ALTER TABLE " _ (clause " ON CLUSTER " c) _
to_sql-on_cluster c (materialize_column a) e =
    begins-text "ALTER TABLE " _ (clause " ON CLUSTER " c) _
to_sql-on_cluster c (add_index a) e = begins-text "ALTER TABLE " _ (clause " ON CLUSTER " c) _
to_sql-on_cluster c (drop_index a) e = begins-text "ALTER TABLE " _ (clause " ON CLUSTER " c) _
to_sql-on_cluster c (materialize_index a) e =
    begins-text "ALTER TABLE " _ (clause " ON CLUSTER " c) _
to_sql-on_cluster c (clear_index a) e = begins-text "ALTER TABLE " _ (clause " ON CLUSTER " c) _
to_sql-on_cluster c (create_projection a) e = absurd (ground (arith, e))
to_sql-on_cluster c (drop_projection a) e = begins-text "ALTER TABLE " _ (clause " ON CLUSTER " c) _
to_sql-on_cluster c (create_table a) e =
    Begins-option "CREATE TABLE IF NOT EXISTS " _ (clause " ON CLUSTER " c) (columns_sql a.columns)
      _
to_sql-on_cluster c (drop_table a) e =
    begins-text "DROP TABLE IF EXISTS " _ (clause " ON CLUSTER " c) _
to_sql-on_cluster c (truncate_table a) e = begins-end "TRUNCATE TABLE IF EXISTS " _ _
to_sql-on_cluster c (modify_ttl a) e = begins-text "ALTER TABLE " _ (clause " ON CLUSTER " c) _
to_sql-on_cluster c (drop_ttl a) e = begins-text "ALTER TABLE " _ (clause " ON CLUSTER " c) _
to_sql-on_cluster c (modify_settings a) e = begins-text "ALTER TABLE " _ (clause " ON CLUSTER " c) _
to_sql-on_cluster c (create_materialized_view a) e =
    Begins-option "CREATE MATERIALIZED VIEW IF NOT EXISTS " _ (clause " ON CLUSTER " c)
      (columns_sql a.columns) _
to_sql-on_cluster c (modify_query_materialized_view a) e =
    begins-text "ALTER TABLE " _ (clause " ON CLUSTER " c) _
to_sql-on_cluster c (insert_into_table a) e = absurd (ground (arith, e))

-- The other two print the same statement for every cluster.
pub to_sql-names_no_cluster :
    (c : String) (o : Operation) → names_cluster o ≡ false → to_sql (on_cluster c o) ≡ to_sql o
unfolding to_sql on_cluster names_cluster
to_sql-names_no_cluster c o e = ground arith
