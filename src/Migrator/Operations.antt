-- ===== src/Migrator/Operations.antt =====
-- The interface `Operation` of cmd/signozschemamigrator/schema_migrator/op.go over the structs that
-- implement it.
pub mod Laws
pub mod Cluster
pub mod Printing
use k_o11y_otel_gateway.Prelude.{String, Option, some}
use k_o11y_otel_gateway.Migrator.Traits.{Traits}
use k_o11y_otel_gateway.Migrator.Column
use k_o11y_otel_gateway.Migrator.Index
use k_o11y_otel_gateway.Migrator.Projection
use k_o11y_otel_gateway.Migrator.Table
use k_o11y_otel_gateway.Migrator.View
use k_o11y_otel_gateway.Migrator.Rows
use k_o11y_otel_gateway.Migrator.Column.Add.{AddColumn}
use k_o11y_otel_gateway.Migrator.Column.Drop.{DropColumn}
use k_o11y_otel_gateway.Migrator.Column.Modify.{ModifyColumn}
use k_o11y_otel_gateway.Migrator.Column.Remove.{ModifyColumnRemove}
use k_o11y_otel_gateway.Migrator.Column.ModifySettings.{ModifyColumnModifySettings}
use k_o11y_otel_gateway.Migrator.Column.ResetSettings.{ModifyColumnResetSettings}
use k_o11y_otel_gateway.Migrator.Column.Materialize.{MaterializeColumn}
use k_o11y_otel_gateway.Migrator.Index.Add.{AddIndex}
use k_o11y_otel_gateway.Migrator.Index.Drop.{DropIndex}
use k_o11y_otel_gateway.Migrator.Index.Materialize.{MaterializeIndex}
use k_o11y_otel_gateway.Migrator.Index.Clear.{ClearIndex}
use k_o11y_otel_gateway.Migrator.Projection.Create.{CreateProjection}
use k_o11y_otel_gateway.Migrator.Projection.Drop.{DropProjection}
use k_o11y_otel_gateway.Migrator.Table.Create.{CreateTable}
use k_o11y_otel_gateway.Migrator.Table.Drop.{DropTable}
use k_o11y_otel_gateway.Migrator.Table.Truncate.{TruncateTable}
use k_o11y_otel_gateway.Migrator.Table.ModifyTtl.{ModifyTtl}
use k_o11y_otel_gateway.Migrator.Table.DropTtl.{DropTtl}
use k_o11y_otel_gateway.Migrator.Table.ModifySettings.{ModifySettings}
use k_o11y_otel_gateway.Migrator.View.Create.{CreateMaterializedView}
use k_o11y_otel_gateway.Migrator.View.ModifyQuery.{ModifyQueryMaterializedView}
use k_o11y_otel_gateway.Migrator.Rows.Insert.{InsertIntoTable}

-- The structs that implement the interface `Operation`.
pub data Operation : Type 0 where
  add_column : AddColumn → Operation
  drop_column : DropColumn → Operation
  modify_column : ModifyColumn → Operation
  modify_column_remove : ModifyColumnRemove → Operation
  modify_column_modify_settings : ModifyColumnModifySettings → Operation
  modify_column_reset_settings : ModifyColumnResetSettings → Operation
  materialize_column : MaterializeColumn → Operation
  add_index : AddIndex → Operation
  drop_index : DropIndex → Operation
  materialize_index : MaterializeIndex → Operation
  clear_index : ClearIndex → Operation
  create_projection : CreateProjection → Operation
  drop_projection : DropProjection → Operation
  create_table : CreateTable → Operation
  drop_table : DropTable → Operation
  truncate_table : TruncateTable → Operation
  modify_ttl : ModifyTtl → Operation
  drop_ttl : DropTtl → Operation
  modify_settings : ModifySettings → Operation
  create_materialized_view : CreateMaterializedView → Operation
  modify_query_materialized_view : ModifyQueryMaterializedView → Operation
  insert_into_table : InsertIntoTable → Operation

unfoldable pub on_cluster : String → Operation → Operation
unfolding Column.Add.on_cluster Column.Drop.on_cluster Column.Modify.on_cluster
    Column.Remove.on_cluster Column.ModifySettings.on_cluster Column.ResetSettings.on_cluster
    Column.Materialize.on_cluster Index.Add.on_cluster Index.Drop.on_cluster
    Index.Materialize.on_cluster Index.Clear.on_cluster Projection.Create.on_cluster
    Projection.Drop.on_cluster Table.Create.on_cluster Table.Drop.on_cluster
    Table.Truncate.on_cluster Table.ModifyTtl.on_cluster Table.DropTtl.on_cluster
    Table.ModifySettings.on_cluster View.Create.on_cluster View.ModifyQuery.on_cluster
    Rows.Insert.on_cluster
on_cluster c (add_column a) = add_column (Column.Add.on_cluster c a)
on_cluster c (drop_column a) = drop_column (Column.Drop.on_cluster c a)
on_cluster c (modify_column a) = modify_column (Column.Modify.on_cluster c a)
on_cluster c (modify_column_remove a) = modify_column_remove (Column.Remove.on_cluster c a)
on_cluster c (modify_column_modify_settings a) =
    modify_column_modify_settings (Column.ModifySettings.on_cluster c a)
on_cluster c (modify_column_reset_settings a) =
    modify_column_reset_settings (Column.ResetSettings.on_cluster c a)
on_cluster c (materialize_column a) = materialize_column (Column.Materialize.on_cluster c a)
on_cluster c (add_index a) = add_index (Index.Add.on_cluster c a)
on_cluster c (drop_index a) = drop_index (Index.Drop.on_cluster c a)
on_cluster c (materialize_index a) = materialize_index (Index.Materialize.on_cluster c a)
on_cluster c (clear_index a) = clear_index (Index.Clear.on_cluster c a)
on_cluster c (create_projection a) = create_projection (Projection.Create.on_cluster c a)
on_cluster c (drop_projection a) = drop_projection (Projection.Drop.on_cluster c a)
on_cluster c (create_table a) = create_table (Table.Create.on_cluster c a)
on_cluster c (drop_table a) = drop_table (Table.Drop.on_cluster c a)
on_cluster c (truncate_table a) = truncate_table (Table.Truncate.on_cluster c a)
on_cluster c (modify_ttl a) = modify_ttl (Table.ModifyTtl.on_cluster c a)
on_cluster c (drop_ttl a) = drop_ttl (Table.DropTtl.on_cluster c a)
on_cluster c (modify_settings a) = modify_settings (Table.ModifySettings.on_cluster c a)
on_cluster c (create_materialized_view a) = create_materialized_view (View.Create.on_cluster c a)
on_cluster c (modify_query_materialized_view a) =
    modify_query_materialized_view (View.ModifyQuery.on_cluster c a)
on_cluster c (insert_into_table a) = insert_into_table (Rows.Insert.on_cluster c a)

-- Every other operation returns itself.
unfoldable pub with_replication : Operation → Operation
unfolding Table.Create.with_replication
with_replication (create_table a) = create_table (Table.Create.with_replication a)
with_replication o = o

unfoldable pub traits : Operation → Traits
unfolding Column.Add.traits Column.Drop.traits Column.Modify.traits Column.Remove.traits
    Column.ModifySettings.traits Column.ResetSettings.traits Column.Materialize.traits
    Index.Add.traits Index.Drop.traits Index.Materialize.traits Index.Clear.traits
    Projection.Create.traits Projection.Drop.traits Table.Create.traits Table.Drop.traits
    Table.Truncate.traits Table.ModifyTtl.traits Table.DropTtl.traits Table.ModifySettings.traits
    View.Create.traits View.ModifyQuery.traits Rows.Insert.traits
traits (add_column a) = Column.Add.traits a
traits (drop_column a) = Column.Drop.traits a
traits (modify_column a) = Column.Modify.traits a
traits (modify_column_remove a) = Column.Remove.traits a
traits (modify_column_modify_settings a) = Column.ModifySettings.traits a
traits (modify_column_reset_settings a) = Column.ResetSettings.traits a
traits (materialize_column a) = Column.Materialize.traits a
traits (add_index a) = Index.Add.traits a
traits (drop_index a) = Index.Drop.traits a
traits (materialize_index a) = Index.Materialize.traits a
traits (clear_index a) = Index.Clear.traits a
traits (create_projection a) = Projection.Create.traits a
traits (drop_projection a) = Projection.Drop.traits a
traits (create_table a) = Table.Create.traits a
traits (drop_table a) = Table.Drop.traits a
traits (truncate_table a) = Table.Truncate.traits a
traits (modify_ttl a) = Table.ModifyTtl.traits a
traits (drop_ttl a) = Table.DropTtl.traits a
traits (modify_settings a) = Table.ModifySettings.traits a
traits (create_materialized_view a) = View.Create.traits a
traits (modify_query_materialized_view a) = View.ModifyQuery.traits a
traits (insert_into_table a) = Rows.Insert.traits a

-- `ToSQL`; `none` is the panic on a column whose type is the nil interface.
unfoldable pub to_sql : Operation → Option String
unfolding Column.Add.to_sql Column.Drop.to_sql Column.Modify.to_sql Column.Remove.to_sql
    Column.ModifySettings.to_sql Column.ResetSettings.to_sql Column.Materialize.to_sql
    Index.Add.to_sql Index.Drop.to_sql Index.Materialize.to_sql Index.Clear.to_sql
    Projection.Create.to_sql Projection.Drop.to_sql Table.Create.to_sql Table.Drop.to_sql
    Table.Truncate.to_sql Table.ModifyTtl.to_sql Table.DropTtl.to_sql Table.ModifySettings.to_sql
    View.Create.to_sql View.ModifyQuery.to_sql Rows.Insert.to_sql
to_sql (add_column a) = Column.Add.to_sql a
to_sql (drop_column a) = some (Column.Drop.to_sql a)
to_sql (modify_column a) = Column.Modify.to_sql a
to_sql (modify_column_remove a) = some (Column.Remove.to_sql a)
to_sql (modify_column_modify_settings a) = some (Column.ModifySettings.to_sql a)
to_sql (modify_column_reset_settings a) = some (Column.ResetSettings.to_sql a)
to_sql (materialize_column a) = some (Column.Materialize.to_sql a)
to_sql (add_index a) = some (Index.Add.to_sql a)
to_sql (drop_index a) = some (Index.Drop.to_sql a)
to_sql (materialize_index a) = some (Index.Materialize.to_sql a)
to_sql (clear_index a) = some (Index.Clear.to_sql a)
to_sql (create_projection a) = some (Projection.Create.to_sql a)
to_sql (drop_projection a) = some (Projection.Drop.to_sql a)
to_sql (create_table a) = Table.Create.to_sql a
to_sql (drop_table a) = some (Table.Drop.to_sql a)
to_sql (truncate_table a) = some (Table.Truncate.to_sql a)
to_sql (modify_ttl a) = some (Table.ModifyTtl.to_sql a)
to_sql (drop_ttl a) = some (Table.DropTtl.to_sql a)
to_sql (modify_settings a) = some (Table.ModifySettings.to_sql a)
to_sql (create_materialized_view a) = View.Create.to_sql a
to_sql (modify_query_materialized_view a) = some (View.ModifyQuery.to_sql a)
to_sql (insert_into_table a) = some (Rows.Insert.to_sql a)
