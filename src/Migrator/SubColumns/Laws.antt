-- ===== src/Migrator/SubColumns/Laws.antt =====
-- What is read back from the expression of an index on a subcolumn,
-- cmd/signozschemamigrator/schema_migrator/index_operations.go.
use mathlib.Core.List.{append_assoc}
use k_o11y_otel_gateway.Prelude.{
  ℕ, ◌≡◌, refl, sym, subst, ap, ◌∙◌, Bool, true, false, not, ◌&&◌, none, some, List, [], ◌∷◌, ◌++◌,
  map, all, ◌==◌, arith,
}
use k_o11y_otel_gateway.Migrator.SubColumns.{
  Text, eq_text, lower_open, element_open, string_type, backtick, split, join, trim_left,
  trim_right, trim, quoted_part, sub_column, typed_tail, format_index_expr, qualified_path,
  index_expr, closing, type_run, type_group, expr_group, strip, find_match, unfold_index_expr,
}

abbrev string_tail : Text
string_tail = typed_tail string_type ++ (b')' ∷ [])

eq_text-string_tail : (s : Text) → eq_text (s ++ string_tail) closing ≡ false
unfolding eq_text
eq_text-string_tail [] = refl
eq_text-string_tail (a ∷ []) = ground arith
eq_text-string_tail (a ∷ b ∷ []) = ground arith
eq_text-string_tail (a ∷ b ∷ c ∷ []) = ground arith
eq_text-string_tail (a ∷ b ∷ c ∷ d ∷ s) = ground arith

type_run-string_tail : (s : Text) → type_run (s ++ string_tail) ≡ none
unfolding type_run eq_text
type_run-string_tail [] = refl
type_run-string_tail (c ∷ s) = ground (arith, eq_text-string_tail s, type_run-string_tail s)

type_group-string_tail : (s : Text) → type_group (s ++ string_tail) ≡ none
unfolding type_group
type_group-string_tail [] = refl
type_group-string_tail (c ∷ s) = ground (arith, type_run-string_tail s, type_group-string_tail s)

abbrev pub has_no_newline : Text → Bool
has_no_newline s = all (λ c. not (c == 0xa)) s

expr_group-string_tail :
    (c : ℕ) (s : Text)
    → has_no_newline (c ∷ s) ≡ true
    → expr_group ((c ∷ s) ++ string_tail) ≡ some (c ∷ s, string_type)
unfolding expr_group type_group type_run eq_text
expr_group-string_tail c [] h = ground (arith, h)
expr_group-string_tail c (d ∷ s) h =
    ground (arith, h, type_group-string_tail s, expr_group-string_tail d s (ground (arith, h)))

-- The expression of an index of type String is read back in full.
unfold_index_expr-string :
    (c : ℕ) (s : Text)
    → has_no_newline (c ∷ s) ≡ true
    → unfold_index_expr (lower_open ++ element_open ++ (c ∷ s) ++ string_tail)
      ≡ some (c ∷ s, string_type)
unfolding unfold_index_expr find_match strip
unfold_index_expr-string c s h = ground (arith, expr_group-string_tail c s h)

module _ (p : ℕ → Bool) where
  all-append : (s t : Text) → (all p s && all p t) ≡ true → all p (s ++ t) ≡ true
  all-append [] t h = h
  all-append (c ∷ s) t h = ground (arith, h, all-append s t (ground (arith, h)))

  all-trim_left : (cut : ℕ) (s : Text) → all p s ≡ true → all p (trim_left cut s) ≡ true
  unfolding trim_left
  all-trim_left cut [] h = refl
  all-trim_left cut (c ∷ s) h = ground (arith, h, all-trim_left cut s (ground (arith, h)))

  all-trim_right : (cut : ℕ) (s : Text) → all p s ≡ true → all p (trim_right cut s) ≡ true
  unfolding trim_right
  all-trim_right cut [] h = refl
  all-trim_right cut (c ∷ s) h = ground (arith, h, all-trim_right cut s (ground (arith, h)))

  all-split : (sep : ℕ) (s : Text) → all p s ≡ true → all (λ part. all p part) (split sep s) ≡ true
  unfolding split
  all-split sep [] h = refl
  all-split sep (c ∷ s) h = ground (arith, h, all-split sep s (ground (arith, h)))

  all-join :
      (sep : Text) (ws : List Text)
      → (all p sep && all (λ part. all p part) ws) ≡ true
      → all p (join sep ws) ≡ true
  unfolding join
  all-join sep [] h = refl
  all-join sep (w ∷ []) h = ground (arith, h)
  all-join sep (w ∷ x ∷ ws) h = all-append (w ++ sep) (join sep (x ∷ ws)) (
      ground
        (arith, h, all-append w sep (ground (arith, h)), all-join sep (x ∷ ws) (ground (arith, h))))

  all-quoted_part :
      (part : Text) → (p backtick && all p part) ≡ true → all p (quoted_part part) ≡ true
  all-quoted_part part h = ground (
    arith,
    h,
    all-append (trim backtick part) (backtick ∷ []) (
        ground (
          arith,
          h,
          all-trim_right backtick (trim_left backtick part)
              (all-trim_left backtick part (ground (arith, h))),
        )),
  )

  all-map-quoted_part :
      (ws : List Text)
      → (p backtick && all (λ part. all p part) ws) ≡ true
      → all (λ part. all p part) (map quoted_part ws) ≡ true
  all-map-quoted_part [] h = refl
  all-map-quoted_part (w ∷ ws) h =
      ground (
        arith,
        h,
        all-quoted_part w (ground (arith, h)),
        all-map-quoted_part ws (ground (arith, h)),
      )

sub_column-has_no_newline :
    (e : Text) → has_no_newline e ≡ true → has_no_newline (sub_column e) ≡ true
unfolding sub_column
sub_column-has_no_newline e h = all-join _ (b'.' ∷ []) (map quoted_part (split b'.' e)) (
    ground (
      arith,
      all-map-quoted_part (λ c. not (c == 0xa)) (split b'.' e)
          (ground (arith, all-split _ b'.' e h)),
    ))

abbrev has_one : List Text → Bool
has_one [] = false
has_one (w ∷ ws) = true

abbrev has_two : List Text → Bool
has_two (w ∷ x ∷ ws) = true
has_two _ = false

split-one : (sep : ℕ) (s : Text) → has_one (split sep s) ≡ true
unfolding split
split-one sep [] = refl
split-one sep (c ∷ s) = ground (arith, split-one sep s)

split-two : (sep : ℕ) (s t : Text) → has_two (split sep (s ++ (sep ∷ t))) ≡ true
unfolding split
split-two sep [] t = ground (arith, split-one sep t)
split-two sep (c ∷ s) t = ground (arith, split-two sep s t)

abbrev IsNonEmpty : Text → Type 0
IsNonEmpty x = (c : ℕ) × (s : Text) × (x ≡ c ∷ s)

append-IsNonEmpty : (s : Text) (c : ℕ) (t : Text) → IsNonEmpty (s ++ (c ∷ []) ++ t)
append-IsNonEmpty [] c t = (c, t, refl)
append-IsNonEmpty (d ∷ s) c t = (d, _, refl)

join-IsNonEmpty :
    (c : ℕ) (ws : List Text) → has_two ws ≡ true → IsNonEmpty (join (c ∷ []) (map quoted_part ws))
unfolding join
join-IsNonEmpty c [] h = absurd (ground (arith, h))
join-IsNonEmpty c (w ∷ []) h = absurd (ground (arith, h))
join-IsNonEmpty c (w ∷ x ∷ ws) h = append-IsNonEmpty (quoted_part w) c _

-- The subcolumn that an index expression of type String was made for is read back from it, as the
-- expression writes it, when its name has no line break.
pub unfold_index_expr-index_expr :
    (column path : Text)
    → has_no_newline (qualified_path column path) ≡ true
    → unfold_index_expr (index_expr column path string_type)
      ≡ some (sub_column (qualified_path column path), string_type)
unfolding index_expr format_index_expr sub_column eq_text
unfold_index_expr-index_expr column path h =
    let e : Text = qualified_path column path in
    let (c, s, q) = join-IsNonEmpty b'.' (split b'.' e) (split-two b'.' column path) in
    let sub : Text = join (b'.' ∷ []) (map quoted_part (split b'.' e)) in
    let plain : has_no_newline sub ≡ true = sub_column-has_no_newline e h in
    ap unfold_index_expr
      (append_assoc (lower_open ++ element_open ++ sub) (typed_tail string_type) (b')' ∷ []))
    ∙ subst
        (λ x.
          unfold_index_expr (lower_open ++ element_open ++ x ++ string_tail)
          ≡ some (x, string_type))
        (sym q) (unfold_index_expr-string c s (subst (λ x. has_no_newline x ≡ true) q plain))
