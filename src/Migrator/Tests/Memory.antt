-- ===== src/Migrator/Tests/Memory.antt =====
-- Servers in memory: the rows, newest first, and the log. One statement fails.
use k_o11y_otel_gateway.Prelude.{
  ℕ, String, Bool, ◌&&◌, none, some, List, [], ◌∷◌, ◌++◌, refl, arith, if◌then◌else◌, ◌==◌, str_eq,
}
use k_o11y_otel_gateway.Prelude.Results.{ok}
use k_o11y_otel_gateway.Migrator.Server.{
  Server, IsLawful, Row, no_rows, status, pending, coordination_error,
}

pub record Memory : Type 0 where
  pub rows : List (String × ℕ × String)
  pub log : List String

abbrev pub is_row : String → ℕ → String → ℕ → Bool
is_row db id d i = str_eq d db && i == id

abbrev pub find : String → ℕ → List (String × ℕ × String) → Row
find db id [] = no_rows
find db id ((d, i, st) ∷ rows) =
    let rest = find db id rows in if is_row db id d i then status st else rest

abbrev pub update : String → ℕ → String → List (String × ℕ × String) → List (String × ℕ × String)
update db id new [] = []
update db id new ((d, i, st) ∷ rows) =
    let rest = update db id new rows in
    if is_row db id d i then (d, i, new) ∷ rest else (d, i, st) ∷ rest

-- `bad` is the statement that fails.
abbrev pub memory : String → Server Memory
memory bad = record {
  exec = λ sql s.
      if str_eq sql bad
      then (s, some "syntax error")
      else (record s { log = s.log ++ (sql ∷ []) }, none);
  insert_entry = λ db id st s. (record s { rows = (db, id, st) ∷ s.rows }, none);
  update_entry = λ db id st e s. (record s { rows = update db id st s.rows }, none);
  find_row = λ db id s. find db id s.rows;
  budget = λ s. 3;
  host_addrs = λ s. (s, ok ("10.0.0.1" ∷ []));
  select_mutations = λ host s. (s, ok 0);
  select_ddl = λ s. (s, pending 0);
  wait_queue_on_host = λ host db table s. (s, none);
  count_legacy = λ db s. ok 0;
  count_v2_tables = λ db s. ok 0;
  count_v2_rows = λ db s. ok 0;
  query_log = λ s. s.log;
}

pub memory-IsLawful : (bad : String) → IsLawful (memory bad)
memory-IsLawful bad = record {
  exec_ok = λ sql s t e. ground (arith, e);
  insert_keeps = λ db id st s. refl;
  update_keeps = λ db id st e s. refl;
  hosts_keep = λ s. refl;
  mutations_keep = λ host s. refl;
  ddl_keeps = λ s. refl;
  queue_keeps = λ host d table s. refl;
}

-- The same servers, when the queue cannot be read.
abbrev pub unreadable_queue : Server Memory
unreadable_queue = record (memory "") { select_ddl = λ s. (s, coordination_error) }
