-- ===== src/Migrator/Server.antt =====
-- The ClickHouse servers as the migration manager uses them, a parameter of the model: the statements
-- and the queries of cmd/signozschemamigrator/schema_migrator/manager.go, on a state of the servers.
use k_o11y_otel_gateway.Prelude.{ℕ, ◌≡◌, String, Option, none, List, [], ◌∷◌, ◌++◌}
use k_o11y_otel_gateway.Prelude.Results.{Result}

-- The row of `schema_migrations_v2` of one migration: `ErrNoRows`, its status, or another error.
pub data Row : Type 0 where
  no_rows : Row
  status : String → Row
  unreadable : String → Row

abbrev pub in_progress_status : String
in_progress_status = "in-progress"

abbrev pub finished_status : String
finished_status = "finished"

abbrev pub failed_status : String
failed_status = "failed"

-- One select of the queue of distributed statements: how many are pending, the exception 999 with
-- "No node" in its text, or another error.
pub data Attempt : Type 0 where
  pending : ℕ → Attempt
  coordination_error : Attempt
  refused : String → Attempt

-- Each call gives the next state of the servers and its result; `budget` is how often `NextBackOff`
-- gives a delay after a `Reset`, before it says `Stop`. `host_addrs` is the list of `HostAddrs`,
-- `select_mutations` connects to a host and counts the mutations that are not done, and
-- `wait_queue_on_host` waits for one table of one host. The counts are those of `shouldRunSquashed`.
pub record Server (S : Type 0) : Type 0 where
  pub exec : String → S → S × Option String
  pub insert_entry : String → ℕ → String → S → S × Option String
  pub update_entry : String → ℕ → String → String → S → S × Option String
  pub find_row : String → ℕ → S → Row
  pub budget : S → ℕ
  pub host_addrs : S → S × Result (List String)
  pub select_mutations : String → S → S × Result ℕ
  pub select_ddl : S → S × Attempt
  pub wait_queue_on_host : String → String → String → S → S × Option String
  pub count_legacy : String → S → Result ℕ
  pub count_v2_tables : String → S → Result ℕ
  pub count_v2_rows : String → S → Result ℕ
  -- The log of the statements that `exec` completed, which the servers keep.
  pub query_log : S → List String

-- The log is the same in both states.
abbrev pub Keeps : {S : Type 0} → Server S → S → S → Type 0
Keeps v s t = v.query_log t ≡ v.query_log s

-- The log holds the statements that `exec` completed, in their order, as the documentation of
-- system.query_log has it, less the queries of the manager and the writes to its status table. Nothing
-- is asked of what the status table gives back: it is read and written through other tables.
pub record IsLawful {S : Type 0} (v : Server S) : Type 0 where
  pub exec_ok :
      (sql : String) (s t : S)
      → v.exec sql s ≡ (t, none)
      → v.query_log t ≡ v.query_log s ++ sql ∷ []
  pub insert_keeps :
      (db : String) (id : ℕ) (st : String) (s : S) → Keeps v s (v.insert_entry db id st s).0
  pub update_keeps :
      (db : String) (id : ℕ) (st e : String) (s : S) → Keeps v s (v.update_entry db id st e s).0
  pub hosts_keep : (s : S) → Keeps v s (v.host_addrs s).0
  pub mutations_keep : (host : String) (s : S) → Keeps v s (v.select_mutations host s).0
  pub ddl_keeps : (s : S) → Keeps v s (v.select_ddl s).0
  pub queue_keeps :
      (host d table : String) (s : S) → Keeps v s (v.wait_queue_on_host host d table s).0
