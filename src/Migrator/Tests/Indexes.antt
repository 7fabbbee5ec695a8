-- ===== src/Migrator/Tests/Indexes.antt =====
-- Indexes on the subcolumn `body.a-b`, and servers without the legacy migrations.
use k_o11y_otel_gateway.Prelude.{some, none, [], ◌∷◌, ◌≡◌, refl, false}
use k_o11y_otel_gateway.KeyCheck.Cardinality.{is_backtick_required}
use k_o11y_otel_gateway.Migrator.SubColumns.{
  Text, eq_text, string_type, sub_column, qualified_path, index_expr, unfold_index_expr, split,
  join, trim_left, trim_right,
}
use k_o11y_otel_gateway.Migrator.SubColumns.Laws.{unfold_index_expr-index_expr}
use k_o11y_otel_gateway.Migrator.SubColumns.Rejected.{unfold_index_expr-other_type}

abbrev body : Text
body = b'b' ∷ b'o' ∷ b'd' ∷ b'y' ∷ []

abbrev path : Text
path = b'a' ∷ b'-' ∷ b'b' ∷ []

abbrev int64_type : Text
int64_type = b'I' ∷ b'n' ∷ b't' ∷ b'6' ∷ b'4' ∷ []

sub_column_backticks :
    sub_column (qualified_path body path)
    ≡ b'b' ∷ b'o' ∷ b'd' ∷ b'y' ∷ b'.' ∷ 0x60 ∷ b'a' ∷ b'-' ∷ b'b' ∷ 0x60 ∷ []
unfolding sub_column split join trim_left trim_right is_backtick_required
sub_column_backticks = refl

unfold_index_expr-index_expr_example :
    unfold_index_expr (index_expr body path string_type)
    ≡ some (sub_column (qualified_path body path), string_type)
unfold_index_expr-index_expr_example = unfold_index_expr-index_expr body path refl

int64_is_other : eq_text int64_type string_type ≡ false
unfolding eq_text
int64_is_other = refl

unfold_index_expr-other_type_example : unfold_index_expr (index_expr body path int64_type) ≡ none
unfold_index_expr-other_type_example =
    unfold_index_expr-other_type body path int64_type int64_is_other
