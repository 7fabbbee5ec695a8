-- ===== src/Opamp/Tests.antt =====
-- Runs of the remote configuration, on a disk that is a list of files.
use k_o11y_otel_gateway.Prelude.{
  ℕ, ◌+◌, ◌%◌, true, false, not, Option, none, some, List, [], ◌∷◌, String, ◌≡◌, refl, arith,
  eq_iff, ltb, ◌==◌, if◌then◌else◌,
}
use k_o11y_otel_gateway.Prelude.Results.{Result, ok, err}
use k_o11y_otel_gateway.Opamp.Files.{Files, IsWritable}
use k_o11y_otel_gateway.Opamp.Reload.{Restart, reload}
use k_o11y_otel_gateway.Opamp.Reload.Laws.{IsSettled, reload-IsSettled}
use k_o11y_otel_gateway.Opamp.Manager.{
  AgentRemoteConfig, ServerClient, Hashing, lookup, collector_config_key,
}
use k_o11y_otel_gateway.Opamp.Manager.Laws.{IsInSync, IsOffered, run, run-IsInSync}

abbrev found : Option ℕ → Result ℕ
found none = err "no such file"
found (some b) = ok b

abbrev disk : Files (List (String × ℕ)) ℕ
disk = record {
  read_file = λ path fs. found (lookup path fs);
  write_file = λ path b fs. (none, (path, b) ∷ fs);
}

disk-IsWritable : IsWritable disk
unfolding lookup
disk-IsWritable = record {
  writes = λ path b fs. refl;
  reads_back = λ path b fs. ground (arith, eq_iff path path);
  leaves_others = λ path other b fs h. ground (arith, h, eq_iff path other);
}

-- The collector runs with contents below 10, and remembers how often it was restarted.
abbrev restart : Restart (List (String × ℕ)) ℕ
restart fs c = elim (lookup "c.yaml" fs) [
  | none ↦ (some "no configuration", c + 1)
  | some b ↦ if ltb b 10 then (none, c + 1) else (some "invalid configuration", c + 1)
]

abbrev fs : List (String × ℕ)
fs = ("c.yaml", 3) ∷ []

stored : disk.read_file "c.yaml" fs ≡ ok 3
unfolding lookup
stored = refl

reload-IsSettled_example :
    IsSettled disk restart "c.yaml" disk-IsWritable 3 12 (reload disk restart "c.yaml" 12 fs 0)
reload-IsSettled_example = reload-IsSettled disk restart "c.yaml" disk-IsWritable 3 12 fs 0 stored

abbrev hashing : Hashing ℕ ℕ
hashing = record { file_hash = λ b. b % 7; empty = 0; hash_eq = λ a b. a == b }

abbrev client : ServerClient (List (String × ℕ)) ℕ ℕ
client = record {
  initial_config_received = false;
  current_hash = 1;
  running_nop_config = true;
  fs = fs;
  collector = 0;
  sent = [];
}

abbrev remote : ℕ → AgentRemoteConfig ℕ ℕ
remote b = record { config_map = some ((collector_config_key, b) ∷ []); config_hash = b }

-- A configuration that the collector refuses, then one that it takes.
abbrev messages : List (Option String × AgentRemoteConfig ℕ ℕ)
messages = (none, remote 12) ∷ (none, remote 5) ∷ []

run-IsInSync_example :
    (b : ℕ) × IsOffered disk restart hashing "c.yaml" disk-IsWritable messages 3 b
    × IsInSync disk restart hashing "c.yaml" b
        (run disk restart hashing "c.yaml" disk-IsWritable messages client)
    × ((run disk restart hashing "c.yaml" disk-IsWritable messages client).running_nop_config
        ≡ not
            (run disk restart hashing "c.yaml" disk-IsWritable messages
              client).initial_config_received)
run-IsInSync_example =
    run-IsInSync disk restart hashing "c.yaml" disk-IsWritable messages 3 client
      (record { stored = stored; hashed = λ r. absurd (ground (arith, r)) }) refl
