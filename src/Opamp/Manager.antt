-- ===== src/Opamp/Manager.antt =====
-- The agent's configuration, opamp/config_manager.go (UpdateCurrentHash, Apply, applyRemoteConfig,
-- CreateEffectiveConfigMsg), and what opamp/server_client.go does with a remote configuration
-- (onRemoteConfigHandler). SHA-256 (fileHash of opamp/helpers.go) and the OpAMP client are parameters;
-- what the client is told is kept in `sent`, the oldest first.
pub mod Laws
use k_o11y_otel_gateway.Prelude.{
  ℕ, Bool, true, false, not, ◌&&◌, ◌||◌, Option, none, some, List, [], ◌∷◌, ◌++◌, String,
  if◌then◌else◌, str_eq,
}
use k_o11y_otel_gateway.Prelude.Results.{Result, ok, err}
use k_o11y_otel_gateway.Opamp.Files.{Files}
use k_o11y_otel_gateway.Opamp.Reload.{Restart, reload}

-- A message to the OpAMP server.
pub data Sent (H : Type 0) : Type 0 where
  applied : H → Sent H
  failed : H → Sent H
  effective_config : Sent H

pub record AgentRemoteConfig (B H : Type 0) : Type 0 where
  pub config_map : Option (List (String × B))
  pub config_hash : H

-- The client with its configuration manager, the collector and the file system.
pub record ServerClient (F C H : Type 0) : Type 0 where
  pub initial_config_received : Bool
  pub current_hash : H
  pub running_nop_config : Bool
  pub fs : F
  pub collector : C
  pub sent : List (Sent H)

abbrev pub collector_config_key : String
collector_config_key = "collector.yaml"

-- The bytes that a hash is taken of, and the comparison of hashes.
pub record Hashing (B H : Type 0) : Type 0 where
  pub file_hash : B → H
  pub empty : B
  pub hash_eq : H → H → Bool

-- A key of a map.
unfoldable pub lookup : {B : Type 0} → String → List (String × B) → Option B
lookup key [] = none
lookup key ((k, b) ∷ rest) = if str_eq k key then some b else lookup key rest

module _ {F B C H : Type 0} (files : Files F B) (restart : Restart F C) (hashing : Hashing B H)
    (path : String) where
  -- `UpdateCurrentHash`.
  unfoldable pub update_current_hash : ServerClient F C H → Option String × ServerClient F C H
  update_current_hash s = elim (files.read_file path s.fs) [
    | err e ↦ (
      some "failed to read config file",
      record s { current_hash = hashing.file_hash hashing.empty },
    )
    | ok contents ↦ (none, record s { current_hash = hashing.file_hash contents })
  ]

  -- `applyRemoteConfig`: whether the configuration changed, and an error.
  unfoldable pub apply_remote_config :
      B → ServerClient F C H → (Bool × Option String) × ServerClient F C H
  apply_remote_config contents s =
      if s.initial_config_received && hashing.hash_eq s.current_hash (hashing.file_hash contents)
      then ((false, none), s)
      else (let (reload_failed, fs, collector) =
            reload files restart path contents s.fs s.collector in
          let reloaded : ServerClient F C H = record s { fs = fs; collector = collector } in
          let (hash_failed, hashed) = update_current_hash reloaded in
          elim reload_failed [
            | some e ↦ ((false, some "failed to reload config"), reloaded)
            | none ↦ elim hash_failed [
              | some e ↦ ((true, some "failed hash compute for config"), hashed)
              | none ↦ ((true, none), record hashed { initial_config_received = true })
            ]
          ])

  unfoldable pub apply :
      AgentRemoteConfig B H → ServerClient F C H → (Bool × Option String) × ServerClient F C H
  apply remote s = elim remote.config_map [
    | none ↦ ((false, none), s)
    | some config_map ↦ elim (lookup collector_config_key config_map) [
      | none ↦ ((false, none), s)
      | some body ↦ apply_remote_config body s
    ]
  ]

  unfoldable pub send : Sent H → ServerClient F C H → ServerClient F C H
  send m s = record s { sent = s.sent ++ (m ∷ []) }

  abbrev pub status_of : Option String → H → Sent H
  status_of none hash = applied hash
  status_of (some e) hash = failed hash

  -- `set_status` and `update_effective` are the errors of the OpAMP client's calls.
  unfoldable pub on_remote_config_handler :
      Option String
      → Option String
      → AgentRemoteConfig B H
      → ServerClient F C H
      → Option String × ServerClient F C H
  on_remote_config_handler set_status update_effective remote s =
      let ((changed, failure), s₁) = apply remote s in
      let s₂ = send (status_of failure remote.config_hash) s₁ in
      let s₃ : ServerClient F C H = record s₂ { running_nop_config = false } in
      elim set_status [
        | some e ↦ (some "failed to set remote config status", s₁)
        | none ↦
            if changed
            then elim update_effective [
              | some e ↦ (some "failed to update effective config", s₃)
              | none ↦ (none, send effective_config s₃)
            ]
            else (none, s₂)
      ]
