-- ===== src/Migrator/Manager/Laws.antt =====
-- One operation run to its end, and the operations of a migration in their order,
-- cmd/signozschemamigrator/schema_migrator/manager.go.
use k_o11y_otel_gateway.Prelude.{
  ℕ, String, false, Option, none, some, [], ◌∷◌, ◌++◌, ◌≡◌, refl, subst, arith, Bool-cases, inl,
  inr,
}
use k_o11y_otel_gateway.Migrator.Traits.{Traits}
use k_o11y_otel_gateway.Migrator.Operations.{Operation, to_sql, traits}
use k_o11y_otel_gateway.Migrator.Server.{
  Server, IsLawful, in_progress_status, finished_status, failed_status,
}
use k_o11y_otel_gateway.Migrator.Waits.Laws.{wait_mutations-Keeps, wait_ddl-Keeps, wait_queue-Keeps}
use k_o11y_otel_gateway.Migrator.Manager.{
  Manager, Exit, returned, failed, panicked, prepare, propagate, guarded, execute, run_operation,
  and_then, joined, wait_before,
}

module _ {S : Type 0} (v : Server S) where
  joined-returned : (e : String) (y : S × Option String) (t : S) → joined v e y ≡ (t, returned) → ⊥
  joined-returned e (s, none) t p = ground (arith, p)
  joined-returned e (s, some u) t p = ground (arith, p)

  pub guarded-returned {ℓ} :
      {C : Type ℓ} (db : String) (id : ℕ) {x : S × Option String} {k : S → S × Exit} {t : S}
      → guarded v db id x k ≡ (t, returned)
      → ((s : S) → x ≡ (s, none) → k s ≡ (t, returned) → C)
      → C
  unfolding guarded
  guarded-returned db id {x = (s, none)} p f = f s refl p
  guarded-returned db id {x = (s, some e)} {t = t} p f =
      absurd (joined-returned e (v.update_entry db id failed_status e s) t p)

  pub propagate-returned {ℓ} :
      {C : Type ℓ} {x : S × Option String} {k : S → S × Exit} {t : S}
      → propagate v x k ≡ (t, returned)
      → ((s : S) → x ≡ (s, none) → k s ≡ (t, returned) → C)
      → C
  unfolding propagate
  propagate-returned {x = (s, none)} p f = f s refl p
  propagate-returned {x = (s, some e)} p f = absurd (ground (arith, p))

  pub and_then-returned {ℓ} :
      {C : Type ℓ} {x : S × Exit} {k : S → S × Exit} {t : S}
      → and_then v x k ≡ (t, returned)
      → ((s : S) → x ≡ (s, returned) → k s ≡ (t, returned) → C)
      → C
  unfolding and_then
  and_then-returned {x = (s, returned)} p f = f s refl p
  and_then-returned {x = (s, failed e)} p f = absurd (ground (arith, p))
  and_then-returned {x = (s, panicked)} p f = absurd (ground (arith, p))

  module _ (l : IsLawful v) where
    -- What the end of a run leaves.
    execute-returned :
        (printed : Option String) (id : ℕ) (db : String) (s t : S)
        → execute v printed id db false s ≡ (t, returned)
        → (sql : String) × (printed ≡ some sql) × (v.query_log t ≡ v.query_log s ++ (sql ∷ []))
    unfolding execute
    execute-returned none id db s t p = absurd (ground (arith, p))
    execute-returned (some sql) id db s t p = guarded-returned db id p (λ s1 e1 p1.
        guarded-returned db id p1 (λ s2 e2 p2. guarded-returned db id p2 (λ s3 e3 p3.
          propagate-returned p3 (λ s4 e4 p4. (
            sql,
            refl,
            ground (
              arith,
              p4,
              e2,
              e3,
              e4,
              l.exec_ok sql s s1 e1,
              wait_mutations-Keeps v l s1,
              wait_ddl-Keeps v l s2,
              l.update_keeps db id finished_status "" s3,
            ),
          )))))

    wait_before-keeps :
        (tr : Traits) (s t : S) → wait_before v tr s ≡ (t, none) → v.query_log t ≡ v.query_log s
    wait_before-keeps tr s t e = elim (Bool-cases tr.waits_for_queue) [
      | inl w ↦ ground (arith, e, w, wait_queue-Keeps v l tr.queue_database tr.queue_table s)
      | inr w ↦ ground (arith, e, w)
    ]

    -- What the run of one operation leaves: its statement logged.
    pub run_operation-returned :
        (m : Manager) (o : Operation) (id : ℕ) (db : String) (s t : S)
        → run_operation v m o id db false s ≡ (t, returned)
        → (sql : String) × (to_sql (prepare m o) ≡ some sql)
          × (v.query_log t ≡ v.query_log s ++ (sql ∷ []))
    unfolding run_operation
    run_operation-returned m o id db s t p = guarded-returned db id p (λ s1 e1 p1.
        guarded-returned db id p1 (λ s2 e2 p2. guarded-returned db id p2 (λ s3 e3 p3.
          propagate-returned p3 (λ s4 e4 p4.
            let (sql, printed, logged) = execute-returned (to_sql (prepare m o)) id db s4 t p4 in
            let quiet : v.query_log s4 ≡ v.query_log s = ground (
              arith,
              e1,
              e2,
              e4,
              l.insert_keeps db id in_progress_status s3,
              wait_before-keeps (traits (prepare m o)) s2 s3 e3,
              wait_mutations-Keeps v l s,
              wait_ddl-Keeps v l s1,
            ) in
            (sql, printed, subst (λ x. v.query_log t ≡ x ++ (sql ∷ [])) quiet logged)))))
