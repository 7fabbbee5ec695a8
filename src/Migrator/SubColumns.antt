-- ===== src/Migrator/SubColumns.antt =====
-- The index of a subcolumn of a JSON column, its name, its expression, and the subcolumn that is
-- read back from the expression, cmd/signozschemamigrator/schema_migrator/index_operations.go. A text
-- is its list of code points, and the two regular expressions are matchers by clauses.
pub mod Laws
pub mod Rejected
use k_o11y_otel_gateway.Prelude.{
  ℕ, ◌≡◌, refl, Bool, true, false, ◌&&◌, ◌||◌, Option, none, some, List, [], ◌∷◌, ◌++◌, map, any,
  ◌==◌, if◌then◌else◌,
}
use mathlib.Core.Option
use k_o11y_otel_gateway.KeyCheck.Cardinality.{is_backtick_required}

abbrev pub Text : Type 0
Text = List ℕ

unfoldable pub eq_text : Text → Text → Bool
eq_text [] [] = true
eq_text (a ∷ s) (b ∷ t) = (a == b) && eq_text s t
eq_text _ _ = false

-- `lower(assumeNotNull(dynamicElement(`
abbrev pub lower_open : Text
lower_open = b'l' ∷ b'o' ∷ b'w' ∷ b'e' ∷ b'r' ∷ b'(' ∷ []

-- `assumeNotNull(dynamicElement(`
abbrev pub element_open : Text
element_open =
    b'a' ∷ b's' ∷ b's' ∷ b'u' ∷ b'm' ∷ b'e' ∷ b'N' ∷ b'o' ∷ b't' ∷ b'N' ∷ b'u' ∷ b'l' ∷ b'l' ∷ b'('
    ∷ b'd' ∷ b'y' ∷ b'n' ∷ b'a' ∷ b'm' ∷ b'i' ∷ b'c' ∷ b'E' ∷ b'l' ∷ b'e' ∷ b'm' ∷ b'e' ∷ b'n'
    ∷ b't' ∷ b'(' ∷ []

abbrev pub string_type : Text
string_type = b'S' ∷ b't' ∷ b'r' ∷ b'i' ∷ b'n' ∷ b'g' ∷ []

abbrev pub backtick : ℕ
backtick = 0x60

abbrev pub quote : ℕ
quote = 0x27

-- `strings.Split` at a character.
unfoldable pub split : ℕ → Text → List Text
split sep [] = [] ∷ []
split sep (c ∷ s) = let rest = split sep s in if c == sep then [] ∷ rest else push c rest
  where
    push : ℕ → List Text → List Text
    push c [] = (c ∷ []) ∷ []
    push c (w ∷ ws) = (c ∷ w) ∷ ws

unfoldable pub join : Text → List Text → Text
join sep [] = []
join sep (w ∷ []) = w
join sep (w ∷ x ∷ ws) = w ++ sep ++ join sep (x ∷ ws)

unfoldable pub trim_left : ℕ → Text → Text
trim_left cut [] = []
trim_left cut (c ∷ s) = let rest = trim_left cut s in if c == cut then rest else c ∷ s

unfoldable pub trim_right : ℕ → Text → Text
trim_right cut [] = []
trim_right cut (c ∷ s) = keep (trim_right cut s)
  where
    keep : Text → Text
    keep [] = if c == cut then [] else c ∷ []
    keep (d ∷ t) = c ∷ d ∷ t

-- `strings.Trim` with one character.
abbrev pub trim : ℕ → Text → Text
trim cut s = trim_right cut (trim_left cut s)

abbrev pub quoted_part : Text → Text
quoted_part part =
    if is_backtick_required part then backtick ∷ trim backtick part ++ (backtick ∷ []) else part

-- The name of the subcolumn as the index writes it.
unfoldable pub sub_column : Text → Text
sub_column expr = join (b'.' ∷ []) (map quoted_part (split b'.' expr))

-- What follows the name in both formats: `, 'T'))`.
abbrev pub typed_tail : Text → Text
typed_tail type_column = b',' ∷ b' ' ∷ quote ∷ type_column ++ (quote ∷ b')' ∷ b')' ∷ [])

unfoldable pub format_index_expr : Text → Text → Text
format_index_expr expr type_column =
    if eq_text type_column string_type
    then lower_open ++ element_open ++ sub_column expr ++ typed_tail type_column ++ (b')' ∷ [])
    else element_open ++ sub_column expr ++ typed_tail type_column

abbrev pub qualified_path : Text → Text → Text
qualified_path column path = column ++ (b'.' ∷ path)

unfoldable pub index_expr : Text → Text → Text → Text
index_expr column path type_column = format_index_expr (qualified_path column path) type_column

unfoldable pub index_name : Text → Text → Text → Text → Text
index_name column path type_column index =
    backtick ∷ qualified_path column path
    ++ (b'_' ∷ type_column)
    ++ (b'_' ∷ index)
    ++ (backtick ∷ [])

-- `\)\)\)$`
abbrev pub closing : Text
closing = b')' ∷ b')' ∷ b')' ∷ []

-- `[^']*'\)\)\)$`, with what stands before the quote.
unfoldable pub type_run : Text → Option Text
type_run [] = none
type_run (c ∷ s) =
    let rest = type_run s in
    if c == quote then if eq_text s closing then some [] else none else Option.map (λ t. c ∷ t) rest

-- `(?P<type>[^']+)'\)\)\)$`
abbrev non_empty : Option Text → Option Text
non_empty (some (c ∷ t)) = some (c ∷ t)
non_empty _ = none

-- `\s`
abbrev is_space : ℕ → Bool
is_space c = c == b' ' || c == 0x9 || c == 0xa || c == 0xc || c == 0xd

-- `\s*'(?P<type>[^']+)'\)\)\)$`
unfoldable pub type_group : Text → Option Text
type_group [] = none
type_group (c ∷ s) =
    let rest = type_group s in
    if is_space c then rest else if c == quote then non_empty (type_run s) else none

-- `,\s*'(?P<type>[^']+)'\)\)\)$`
abbrev pub after_expr : Text → Option Text
after_expr [] = none
after_expr (c ∷ s) = if c == b',' then type_group s else none

-- `(?P<expr>.+?),\s*'(?P<type>[^']+)'\)\)\)$`: the shortest text before a comma that fits.
unfoldable pub expr_group : Text → Option (Text × Text)
expr_group [] = none
expr_group (c ∷ s) =
    let rest = expr_group s in
    if c == 0xa then none else elim (after_expr s) [
      | some t ↦ some (c ∷ [], t)
      | none ↦ Option.map (λ (e, t). (c ∷ e, t)) rest
    ]

unfoldable pub strip : Text → Text → Option Text
strip [] s = some s
strip (p ∷ ps) [] = none
strip (p ∷ ps) (c ∷ s) = let rest = strip ps s in if p == c then rest else none

abbrev pub match_at : Text → Text → Option (Text × Text)
match_at open_text s = elim (strip open_text s) [ none ↦ none | some rest ↦ expr_group rest ]

-- `FindStringSubmatch`: the leftmost match.
unfoldable pub find_match : Text → Text → Option (Text × Text)
find_match open_text [] = match_at open_text []
find_match open_text (c ∷ s) =
    let rest = find_match open_text s in
    elim (match_at open_text (c ∷ s)) [ some m ↦ some m | none ↦ rest ]

-- The subcolumn and the type; `none` is the error.
unfoldable pub unfold_index_expr : Text → Option (Text × Text)
unfold_index_expr expr = elim (find_match (lower_open ++ element_open) expr) [
  | some m ↦ some m
  | none ↦ find_match element_open expr
]
