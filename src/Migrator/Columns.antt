-- ===== src/Migrator/Columns.antt =====
-- Column types, columns and their settings, and the texts they print,
-- cmd/signozschemamigrator/schema_migrator/column.go.
pub mod Laws
use Prim.Native.String.{◌++◌}
use k_o11y_otel_gateway.Prelude.{
  ℕ, String, List, [], ◌∷◌, map, Option, none, some, Bool, true, false, if◌then◌else◌, str_eq,
}
use k_o11y_otel_gateway.Prelude.Int.{ℤ}
use k_o11y_otel_gateway.Prelude.Decimal.{itoa, itoa_ℕ}
use k_o11y_otel_gateway.Migrator.Text.{join, clause}

pub data ColumnProperty : Type 0 where
  property_ttl property_default property_alias property_materialized property_codec property_comment
        property_settings :
      ColumnProperty

unfoldable pub property_text : ColumnProperty → String
property_text property_ttl = "TTL"
property_text property_default = "DEFAULT"
property_text property_alias = "ALIAS"
property_text property_materialized = "MATERIALIZED"
property_text property_codec = "CODEC"
property_text property_comment = "COMMENT"
property_text property_settings = "SETTINGS"

pub data ColumnTypeEnum : Type 0 where
  enum_string enum_int8 enum_int16 enum_int32 enum_int64 enum_int128 enum_int256 enum_uint8
        enum_uint16 enum_uint32 enum_uint64 enum_uint128 enum_uint256 enum_float32 enum_float64
        enum_bool enum_date enum_date32 enum_uuid enum_ipv4 enum_ipv6 enum_low_cardinality
        enum_nullable enum_simple_aggregate_function enum_aggregate_function enum_json
        enum_fixed_string enum_date_time enum_date_time64 enum_array enum_map enum_tuple
        enum_enumeration :
      ColumnTypeEnum

-- `ColumnSetting`, a name and its value.
pub record ColumnSetting : Type 0 where
  pub name : String
  pub value : String

unfoldable pub setting_string : ColumnSetting → String
setting_string s = s.name ++ " = " ++ s.value

unfoldable pub settings_names : List ColumnSetting → List String
settings_names ss = map (λ s. s.name) ss

unfoldable pub settings_string : List ColumnSetting → String
unfolding setting_string
settings_string ss = join ", " (map setting_string ss)

-- The interface `ColumnType` and the structs that implement it; `nil` is the nil interface. The
-- pointers and the settings that may be nil are options.
mutual
  pub data ColumnType : Type 0 where
    nil : ColumnType
    primitive : (type : String) (enum : ColumnTypeEnum) → ColumnType
    json_type : (max_dynamic_paths max_dynamic_types : Option ℕ) (columns : Columns) → ColumnType
    fixed_string_type : (length : ℤ) → ColumnType
    date_time_type : (timezone : String) → ColumnType
    date_time64_type : (precision : ℤ) (timezone : String) → ColumnType
    array_type : (element : ColumnType) → ColumnType
    map_of : (key value : ColumnType) → ColumnType
    tuple_type : (elements : ColumnTypes) → ColumnType
    low_cardinality_type : (element : ColumnType) → ColumnType
    enumeration_type : (values : List String) (size : ℤ) → ColumnType
    nullable_type : (element : ColumnType) → ColumnType
    simple_aggregate : (function : String) (arguments : ColumnTypes) → ColumnType
    aggregate : (function : String) (arguments : ColumnTypes) → ColumnType

  pub data ColumnTypes : Type 0 where
    no_types : ColumnTypes
    types : ColumnType → ColumnTypes → ColumnTypes

  -- Name, Type, Codec, Alias, Default, Materialized, TTL, Settings and Comment.
  pub data Column : Type 0 where
    column :
        (name : String) (type : ColumnType) (codec alias default materialized ttl : String)
        (settings : Option (List ColumnSetting)) (comment : String)
        → Column

  pub data Columns : Type 0 where
    no_columns : Columns
    columns : Column → Columns → Columns

abbrev pub column_name : Column → String
column_name (column n _ _ _ _ _ _ _ _) = n

abbrev pub column_type : Column → ColumnType
column_type (column _ t _ _ _ _ _ _ _) = t

-- What `fmt.Sprintf("%s", t)` writes for a type whose `String` gave the second argument, `none` when
-- it panicked: fmt writes a text for the nil interface and for a panic of `String`.
unfoldable pub format_s : ColumnType → Option String → String
format_s nil _ = "%!s(<nil>)"
format_s _ none =
    "%!s(PANIC=String method: runtime error: invalid memory address or nil pointer dereference)"
format_s _ (some s) = s

abbrev dynamic_param : String → Option ℕ → List String → List String
dynamic_param keyword none rest = rest
dynamic_param keyword (some n) rest = (keyword ++ itoa_ℕ n) ∷ rest

abbrev cons_text : Option String → Option (List String) → Option (List String)
cons_text (some s) (some ss) = some (s ∷ ss)
cons_text _ _ = none

-- A text around what was printed, or the panic of what was not.
abbrev pub with_text : Option (List String) → (List String → String) → Option String
with_text none f = none
with_text (some ss) f = some (f ss)

-- `String` of a type; `none` is the panic of a call through a nil interface.
unfoldable mutual
  pub type_string : ColumnType → Option String
  type_string nil = none
  type_string (primitive t _) = some t
  type_string (json_type paths depth cs) = with_text (json_columns cs) (λ params.
      "JSON("
      ++ join ", " (
          dynamic_param "max_dynamic_paths=" paths
            (dynamic_param "max_dynamic_types=" depth params))
      ++ ")")
  type_string (fixed_string_type n) = some ("FixedString(" ++ itoa n ++ ")")
  type_string (date_time_type tz) =
      some (if str_eq tz "" then "DateTime" else "DateTime(" ++ tz ++ ")")
  type_string (date_time64_type p tz) = some (
      if str_eq tz ""
      then "DateTime64(" ++ itoa p ++ ")"
      else "DateTime64(" ++ itoa p ++ ", " ++ tz ++ ")")
  type_string (array_type e) = some ("Array(" ++ format_s e (type_string e) ++ ")")
  type_string (map_of k v) =
      some ("Map(" ++ format_s k (type_string k) ++ ", " ++ format_s v (type_string v) ++ ")")
  type_string (tuple_type es) = with_text (types_strings es) (λ ss. "Tuple(" ++ join ", " ss ++ ")")
  type_string (low_cardinality_type e) =
      some ("LowCardinality(" ++ format_s e (type_string e) ++ ")")
  type_string (enumeration_type vs size) = some ("Enum" ++ itoa size ++ "(" ++ join ", " vs ++ ")")
  type_string (nullable_type e) = some ("Nullable(" ++ format_s e (type_string e) ++ ")")
  type_string (simple_aggregate f es) =
      with_text (types_strings es)
        (λ ss. "SimpleAggregateFunction(" ++ f ++ ", " ++ join ", " ss ++ ")")
  type_string (aggregate f es) =
      with_text (types_strings es) (λ ss. "AggregateFunction(" ++ f ++ ", " ++ join ", " ss ++ ")")

  pub types_strings : ColumnTypes → Option (List String)
  types_strings no_types = some []
  types_strings (types t ts) = cons_text (type_string t) (types_strings ts)

  -- The loop over the columns of a JSON type: `fmt.Sprintf("%s %s", column.Name, column.Type.String())`.
  pub json_columns : Columns → Option (List String)
  json_columns no_columns = some []
  json_columns (columns (column n t _ _ _ _ _ _ _) cs) =
      cons_text (elim (type_string t) [ none ↦ none | some s ↦ some (n ++ " " ++ s) ])
        (json_columns cs)

-- `GetType`; `none` is the panic on the nil interface.
unfoldable pub get_type : ColumnType → Option ColumnTypeEnum
get_type nil = none
get_type (primitive _ e) = some e
get_type (json_type _ _ _) = some enum_json
get_type (fixed_string_type _) = some enum_fixed_string
get_type (date_time_type _) = some enum_date_time
get_type (date_time64_type _ _) = some enum_date_time64
get_type (array_type _) = some enum_array
get_type (map_of _ _) = some enum_map
get_type (tuple_type _) = some enum_tuple
get_type (low_cardinality_type _) = some enum_low_cardinality
get_type (enumeration_type _ _) = some enum_enumeration
get_type (nullable_type _) = some enum_nullable
get_type (simple_aggregate _ _) = some enum_simple_aggregate_function
get_type (aggregate _ _) = some enum_aggregate_function

-- The constants `ColumnTypeString` to `ColumnTypeIPv6`, in the source's order.
abbrev pub primitive_types : List ColumnType
primitive_types =
    primitive "String" enum_string
    ∷ primitive "Int8" enum_int8
    ∷ primitive "Int16" enum_int16
    ∷ primitive "Int32" enum_int32
    ∷ primitive "Int64" enum_int64
    ∷ primitive "Int128" enum_int128
    ∷ primitive "Int256" enum_int256
    ∷ primitive "UInt8" enum_uint8
    ∷ primitive "UInt16" enum_uint16
    ∷ primitive "UInt32" enum_uint32
    ∷ primitive "UInt64" enum_uint64
    ∷ primitive "UInt128" enum_uint128
    ∷ primitive "UInt256" enum_uint256
    ∷ primitive "Float32" enum_float32
    ∷ primitive "Float64" enum_float64
    ∷ primitive "Bool" enum_bool
    ∷ primitive "Date" enum_date
    ∷ primitive "Date32" enum_date32
    ∷ primitive "UUID" enum_uuid
    ∷ primitive "IPv4" enum_ipv4
    ∷ primitive "IPv6" enum_ipv6
    ∷ []

-- `Column.Settings`: `nil` writes nothing, an empty list writes the keyword.
abbrev pub settings_clause : Option (List ColumnSetting) → String
settings_clause none = ""
settings_clause (some ss) = " SETTINGS " ++ settings_string ss

abbrev pub codec_clause : String → String
codec_clause c = if str_eq c "" then "" else " CODEC(" ++ c ++ ")"

unfoldable pub column_sql : Column → Option String
column_sql (column n t codec alias default materialized ttl settings comment) =
    elim (type_string t) [
      | none ↦ none
      | some s ↦ some (
          n
          ++ " "
          ++ s
          ++ clause " ALIAS " alias
          ++ clause " DEFAULT " default
          ++ clause " MATERIALIZED " materialized
          ++ codec_clause codec
          ++ clause " TTL " ttl
          ++ settings_clause settings
          ++ clause " COMMENT " comment)
    ]

-- The texts of the columns, in order.
unfoldable pub columns_sql : Columns → Option (List String)
columns_sql no_columns = some []
columns_sql (columns c cs) = cons_text (column_sql c) (columns_sql cs)
