-- ===== src/Migrator/Columns/Laws.antt =====
-- Which column types print a text, cmd/signozschemamigrator/schema_migrator/column.go.
use Prim.Native.String.{◌++◌}
use k_o11y_otel_gateway.Prelude.{
  ◌∙◌, String, Bool, true, false, ◌&&◌, Option, none, some, List, ◌≡◌, refl, arith, Option-cases,
  inl, inr,
}
use k_o11y_otel_gateway.Migrator.Columns.{
  ColumnType, ColumnTypes, Column, Columns, nil, primitive, json_type, fixed_string_type,
  date_time_type, date_time64_type, array_type, map_of, tuple_type, low_cardinality_type,
  enumeration_type, nullable_type, simple_aggregate, aggregate, no_types, types, column, no_columns,
  columns, type_string, types_strings, json_columns, column_sql, columns_sql, column_type,
  cons_text, with_text,
}

abbrev pub has_text : {A : Type 0} → Option A → Bool
has_text none = false
has_text (some s) = true

cons_text-has_text :
    (x : Option String) (xs : Option (List String))
    → has_text (cons_text x xs) ≡ (has_text x && has_text xs)
cons_text-has_text none xs = refl
cons_text-has_text (some s) none = refl
cons_text-has_text (some s) (some ss) = refl

with_text-has_text :
    (xs : Option (List String)) (f : List String → String) → has_text (with_text xs f) ≡ has_text xs
with_text-has_text none f = refl
with_text-has_text (some ss) f = refl

-- No nil type where the printer calls `String` itself. The element of an array, a map, or a nullable
-- or low cardinality type is printed by fmt, which writes a text for nil.
unfoldable mutual
  pub is_set : ColumnType → Bool
  is_set nil = false
  is_set (json_type _ _ cs) = are_set cs
  is_set (tuple_type ts) = all_set ts
  is_set (simple_aggregate _ ts) = all_set ts
  is_set (aggregate _ ts) = all_set ts
  is_set t = true

  pub all_set : ColumnTypes → Bool
  all_set no_types = true
  all_set (types t ts) = is_set t && all_set ts

  pub are_set : Columns → Bool
  are_set no_columns = true
  are_set (columns (column _ t _ _ _ _ _ _ _) cs) = is_set t && are_set cs

named-has_text :
    (n : String) (x : Option String)
    → has_text {A = String} (elim x [ none ↦ none | some s ↦ some (n ++ " " ++ s) ]) ≡ has_text x
named-has_text n none = refl
named-has_text n (some s) = refl

mutual
  unfolding type_string is_set

  pub type_string-set : (t : ColumnType) → has_text (type_string t) ≡ is_set t
  type_string-set nil = refl
  type_string-set (primitive _ _) = refl
  type_string-set (json_type p d cs) = with_text-has_text (json_columns cs) _ ∙ json_columns-set cs
  type_string-set (fixed_string_type n) = refl
  type_string-set (date_time_type tz) = refl
  type_string-set (date_time64_type p tz) = refl
  type_string-set (array_type e) = refl
  type_string-set (map_of k v) = refl
  type_string-set (tuple_type ts) = with_text-has_text (types_strings ts) _ ∙ types_strings-set ts
  type_string-set (low_cardinality_type e) = refl
  type_string-set (enumeration_type vs n) = refl
  type_string-set (nullable_type e) = refl
  type_string-set (simple_aggregate f ts) =
      with_text-has_text (types_strings ts) _ ∙ types_strings-set ts
  type_string-set (aggregate f ts) = with_text-has_text (types_strings ts) _ ∙ types_strings-set ts

  types_strings-set : (ts : ColumnTypes) → has_text (types_strings ts) ≡ all_set ts
  types_strings-set no_types = refl
  types_strings-set (types t ts) =
      cons_text-has_text (type_string t) (types_strings ts)
      ∙ cc (type_string-set t, types_strings-set ts)

  json_columns-set : (cs : Columns) → has_text (json_columns cs) ≡ are_set cs
  json_columns-set no_columns = refl
  json_columns-set (columns (column n t _ _ _ _ _ _ _) cs) =
      cons_text-has_text _ (json_columns cs)
      ∙ cc (named-has_text n (type_string t), type_string-set t, json_columns-set cs)

-- A column prints its definition exactly when no nil type stands where `String` is called.
pub column_sql-set : (c : Column) → has_text (column_sql c) ≡ is_set (column_type c)
unfolding column_sql
column_sql-set (column n t codec alias default materialized ttl settings comment) =
    elim (Option-cases (type_string t)) [
      | inl e ↦ ground (arith, e, type_string-set t)
      | inr (s, e) ↦ ground (arith, e, type_string-set t)
    ]

pub columns_sql-set : (cs : Columns) → has_text (columns_sql cs) ≡ are_set cs
unfolding columns_sql is_set
columns_sql-set no_columns = refl
columns_sql-set (columns (column n t a b c d e f g) cs) =
    cons_text-has_text _ (columns_sql cs)
    ∙ cc (column_sql-set (column n t a b c d e f g), columns_sql-set cs)
