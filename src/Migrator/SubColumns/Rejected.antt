-- ===== src/Migrator/SubColumns/Rejected.antt =====
-- Which expressions nothing is read back from,
-- cmd/signozschemamigrator/schema_migrator/index_operations.go.
use mathlib.Core.List.{append_assoc}
use k_o11y_otel_gateway.Prelude.{
  ◌≡◌, refl, subst, Bool, true, false, ◌||◌, Option, none, some, [], ◌∷◌, ◌++◌, arith,
}
use k_o11y_otel_gateway.Migrator.SubColumns.{
  Text, eq_text, lower_open, element_open, string_type, quote, sub_column, typed_tail,
  format_index_expr, qualified_path, index_expr, closing, type_run, type_group, after_expr,
  expr_group, strip, match_at, find_match, unfold_index_expr,
}

-- The last three characters of the text, or of a text that it ends with, close the expression.
unfoldable closes : Text → Bool
closes [] = false
closes (c ∷ s) = eq_text (c ∷ s) closing || closes s

abbrev is_matched : {A : Type 0} → Option A → Bool
is_matched none = false
is_matched (some a) = true

type_run-closes : (s : Text) → closes s ≡ false → is_matched (type_run s) ≡ false
unfolding closes type_run eq_text
type_run-closes [] h = refl
type_run-closes (c ∷ []) h = ground (arith, h)
type_run-closes (c ∷ d ∷ s) h = ground (arith, h, type_run-closes (d ∷ s) (ground (arith, h)))

type_group-closes : (s : Text) → closes s ≡ false → is_matched (type_group s) ≡ false
unfolding closes type_group
type_group-closes [] h = refl
type_group-closes (c ∷ s) h =
    ground
      (arith, h, type_run-closes s (ground (arith, h)), type_group-closes s (ground (arith, h)))

after_expr-closes : (s : Text) → closes s ≡ false → is_matched (after_expr s) ≡ false
unfolding closes
after_expr-closes [] h = refl
after_expr-closes (c ∷ s) h = ground (arith, h, type_group-closes s (ground (arith, h)))

expr_group-closes : (s : Text) → closes s ≡ false → is_matched (expr_group s) ≡ false
unfolding closes expr_group
expr_group-closes [] h = refl
expr_group-closes (c ∷ s) h =
    ground
      (arith, h, after_expr-closes s (ground (arith, h)), expr_group-closes s (ground (arith, h)))

match_at-closes : (o s : Text) → closes s ≡ false → is_matched (match_at o s) ≡ false
unfolding closes strip
match_at-closes [] s h = expr_group-closes s h
match_at-closes (p ∷ o) [] h = refl
match_at-closes (p ∷ o) (c ∷ s) h = ground (arith, h, match_at-closes o s (ground (arith, h)))

find_match-closes : (o s : Text) → closes s ≡ false → is_matched (find_match o s) ≡ false
unfolding closes find_match
find_match-closes o [] h = match_at-closes o [] h
find_match-closes o (c ∷ s) h =
    ground (arith, h, match_at-closes o (c ∷ s) h, find_match-closes o s (ground (arith, h)))

closes-two : (s : Text) → closes (s ++ (quote ∷ b')' ∷ b')' ∷ [])) ≡ false
unfolding closes eq_text
closes-two [] = refl
closes-two (a ∷ []) = ground (arith, closes-two [])
closes-two (a ∷ b ∷ []) = ground (arith, closes-two (b ∷ []))
closes-two (a ∷ b ∷ c ∷ []) = ground (arith, closes-two (b ∷ c ∷ []))
closes-two (a ∷ b ∷ c ∷ d ∷ s) = ground (arith, closes-two (b ∷ c ∷ d ∷ s))

unfold_index_expr-closes : (s : Text) → closes s ≡ false → unfold_index_expr s ≡ none
unfolding unfold_index_expr
unfold_index_expr-closes s h =
    ground (
      arith,
      find_match-closes (lower_open ++ element_open) s h,
      find_match-closes element_open s h,
    )

typed_tail-closes : (s t : Text) → closes (s ++ typed_tail t) ≡ false
typed_tail-closes s t =
    let front : Text = b',' ∷ b' ' ∷ quote ∷ t in
    subst (λ x. closes x ≡ false) (append_assoc s front (quote ∷ b')' ∷ b')' ∷ []))
      (closes-two (s ++ front))

-- Nothing is read back from the expression of an index whose type is not String.
pub unfold_index_expr-other_type :
    (column path type_column : Text)
    → eq_text type_column string_type ≡ false
    → unfold_index_expr (index_expr column path type_column) ≡ none
unfolding index_expr format_index_expr
unfold_index_expr-other_type column path t h =
    let e : Text = qualified_path column path in
    ground (
      arith,
      h,
      unfold_index_expr-closes (element_open ++ sub_column e ++ typed_tail t)
          (typed_tail-closes (element_open ++ sub_column e) t),
    )
