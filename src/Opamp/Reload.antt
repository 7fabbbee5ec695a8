-- ===== src/Opamp/Reload.antt =====
-- Reloading the collector with a new configuration, opamp/server_client.go (reload): the old file is
-- kept aside and put back when the collector does not restart. Logs and the flag isReloading, which
-- the lock covers, are left out.
pub mod Laws
use Prim.Native.String
use k_o11y_otel_gateway.Prelude.{String, Option, none, some}
use k_o11y_otel_gateway.Opamp.Files.{Files, copy}

-- `Restart` of the collector reads the files: an error or nothing, and the collector afterwards.
abbrev pub Restart : Type 0 → Type 0 → Type 0
Restart F C = F → C → Option String × C

unfoldable pub rollback_path : String → String
rollback_path path = String.◌++◌ path ".rollback"

module _ {F B C : Type 0} (files : Files F B) (restart : Restart F C) (path : String) where
  -- Roll back and restart; errors of both are only logged.
  unfoldable pub roll_back : F → C → F × C
  roll_back fs c =
      let (_, fs') = copy files (rollback_path path) path fs in
      let (_, c') = restart fs' c in (fs', c')

  unfoldable pub reload : B → F → C → Option String × F × C
  reload contents fs c =
      let (backup_failed, fs₁) = copy files path (rollback_path path) fs in
      let (write_failed, fs₂) = files.write_file path contents fs₁ in
      let (restart_failed, c') = restart fs₂ c in
      let (fs₃, c'') = roll_back fs₂ c' in
      elim backup_failed [
        | some e ↦ (some "failed to create backup of collector config", fs₁, c)
        | none ↦ elim write_failed [
          | some e ↦ (some "failed to update config file", fs₂, c)
          | none ↦ elim restart_failed [
            | none ↦ (none, fs₂, c')
            | some e ↦ (some "collector failed to restart", fs₃, c'')
          ]
        ]
      ]
