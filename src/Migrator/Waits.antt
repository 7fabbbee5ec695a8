-- ===== src/Migrator/Waits.antt =====
-- The waits of the manager: for the mutations of every host, for the queue of distributed statements,
-- and for the distribution queue of a table: `WaitForRunningMutations`, `WaitDistributedDDLQueue`,
-- `WaitForDistributionQueue`, cmd/signozschemamigrator/schema_migrator/manager.go.

pub mod Laws
use k_o11y_otel_gateway.Prelude.{ℕ, zero, suc, String, Option, none, some, List, [], ◌∷◌}
use k_o11y_otel_gateway.Prelude.Results.{Result, ok, err}
use k_o11y_otel_gateway.Migrator.Text.{errors_join}
use k_o11y_otel_gateway.Migrator.Server.{Server, Attempt, pending, coordination_error, refused}

module _ {S : Type 0} where
  -- `errors.Join` of a fixed error and the one that was returned, if any.
  abbrev pub join_with : String → S × Option String → S × Option String
  join_with message (s, none) = (s, none)
  join_with message (s, some e) = (s, some (errors_join message e))

  abbrev pub then_try : S × Option String → (S → S × Option String) → S × Option String
  then_try (s, none) k = k s
  then_try (s, some e) k = (s, some e)

  -- The loop of the two waits: it selects until nothing is pending, as often as the backoff allows.
  abbrev pub polled : S × Result ℕ → (S → S × Option String) → S × Option String
  polled (t, err e) again = (t, some e)
  polled (t, ok zero) again = (t, none)
  polled (t, ok (suc n)) again = again t

  unfoldable pub poll : (S → S × Result ℕ) → ℕ → S → S × Option String
  poll select zero s = (s, some "backoff stopped")
  poll select (suc budget) s = polled (select s) (λ t. poll select budget t)

  abbrev pub attempted : S × Attempt → (S → S × Result ℕ) → S × Result ℕ
  attempted (t, pending k) again = (t, ok k)
  attempted (t, coordination_error) again = again t
  attempted (t, refused e) again = (t, err e)

  unfoldable pub each_host : (String → S → S × Option String) → List String → S → S × Option String
  each_host wait [] s = (s, none)
  each_host wait (host ∷ hosts) s = then_try (wait host s) (λ t. each_host wait hosts t)

  -- The loop over the hosts that were found.
  abbrev pub all_hosts :
      (String → S → S × Option String) → S × Result (List String) → S × Option String
  all_hosts wait (s, err e) = (s, some e)
  all_hosts wait (s, ok hosts) = each_host wait hosts s

module _ {S : Type 0} (v : Server S) where
  unfoldable pub wait_mutations_on_host : String → S → S × Option String
  wait_mutations_on_host host s = poll (v.select_mutations host) (v.budget s) s

  unfoldable pub wait_mutations : S → S × Option String
  wait_mutations s =
      all_hosts (λ host t. join_with "failed to wait for mutations" (wait_mutations_on_host host t))
        (v.host_addrs s)

  -- At most ten attempts, and the empty queue when they are used up.
  unfoldable pub attempts : ℕ → S → S × Result ℕ
  attempts zero s = (s, ok 0)
  attempts (suc n) s = attempted (v.select_ddl s) (λ t. attempts n t)

  unfoldable pub get_distributed_ddl_queue : S → S × Result ℕ
  get_distributed_ddl_queue s = attempts 10 s

  unfoldable pub wait_ddl : S → S × Option String
  wait_ddl s = poll get_distributed_ddl_queue (v.budget s) s

  unfoldable pub wait_queue : String → String → S → S × Option String
  wait_queue db table s =
      join_with "failed to wait for distribution queue"
        (all_hosts (λ host t. v.wait_queue_on_host host db table t) (v.host_addrs s))
