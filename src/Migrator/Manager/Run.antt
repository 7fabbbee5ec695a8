-- ===== src/Migrator/Manager/Run.antt =====
-- The operations of a migration run in their order, and what they log,
-- cmd/signozschemamigrator/schema_migrator/manager.go.
use mathlib.Core.List.{append-nil, append_assoc}
use k_o11y_otel_gateway.Prelude.{
  ℕ, String, Bool, true, false, Option, some, List, [], ◌∷◌, ◌++◌, ◌≡◌, refl, ap, ◌∙◌, arith, map,
  if◌then◌else◌,
}
use k_o11y_otel_gateway.Migrator.Operations.{Operation, to_sql}
use k_o11y_otel_gateway.Migrator.Server.{Server, IsLawful}
use k_o11y_otel_gateway.Migrator.Manager.{
  Manager, Exit, returned, prepare, run_operation, run_selected,
}
use k_o11y_otel_gateway.Migrator.Manager.Laws.{and_then-returned, run_operation-returned}

-- The operations that the test selects, and what they print once they are prepared.
abbrev pub selected : (Operation → Bool) → List Operation → List Operation
selected selects [] = []
selected selects (o ∷ os) = if selects o then o ∷ selected selects os else selected selects os

abbrev pub printed : Manager → List Operation → List (Option String)
printed m os = map (λ o. to_sql (prepare m o)) os

module _ {S : Type 0} (v : Server S) where
  -- Between the two states the statements of the operations were logged, in their order.
  abbrev pub Logged : Manager → List Operation → S → S → Type 0
  Logged m os s t =
      (sqls : List String) × (printed m os ≡ map some sqls)
      × (v.query_log t ≡ v.query_log s ++ sqls)

  -- The item of the loop.
  abbrev step : Bool → Manager → Operation → ℕ → String → S → S × Exit
  step chosen m o id db s = elim chosen [
    | true ↦ run_operation v m o id db false s
    | false ↦ (s, returned)
  ]

  module _ (l : IsLawful v) where
    step-Logged :
        (chosen : Bool) (m : Manager) (o : Operation) (os : List Operation) (id : ℕ) (db : String)
        (s s1 t : S)
        → step chosen m o id db s ≡ (s1, returned)
        → Logged m os s1 t
        → Logged m (if chosen then o ∷ os else os) s t
    step-Logged true m o os id db s s1 t e (sqls, prints, logs) =
        let (sql, print, log) = run_operation-returned v l m o id db s s1 e in
        (
          sql ∷ sqls,
          ground (arith, print, prints),
          logs ∙ ap (λ x. x ++ sqls) log ∙ append_assoc (v.query_log s) (sql ∷ []) sqls,
        )
    step-Logged false m o os id db s s1 t e (sqls, prints, logs) =
        (sqls, prints, ground (arith, e, logs))

    -- When the loop over the operations of a migration returns, on servers whose log lists the
    -- statements that Exec completed and is left alone by the other calls, the statements of exactly the
    -- operations that the test selects, prepared for the cluster, were logged, in their order.
    pub run_selected-Logged :
        (selects : Operation → Bool) (m : Manager) (os : List Operation) (id : ℕ) (db : String)
        (s t : S)
        → run_selected v selects m os id db false s ≡ (t, returned)
        → Logged m (selected selects os) s t
    unfolding run_selected
    run_selected-Logged selects m [] id db s t p =
        ([], refl, ground (arith, p, append-nil (v.query_log s)))
    run_selected-Logged selects m (o ∷ os) id db s t p = and_then-returned v p (λ s1 e1 p1.
        step-Logged (selects o) m o (selected selects os) id db s s1 t e1
          (run_selected-Logged selects m os id db s1 t p1))
