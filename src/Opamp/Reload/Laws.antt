-- ===== src/Opamp/Reload/Laws.antt =====
-- What a reload leaves of the configuration file.
use Prim.Native.String
use Prim.Native.String.{count}
use text.Mathlib.TextLemmas.{length-append}
use k_o11y_otel_gateway.Prelude.{◌+◌, String, Option, none, some, ◌≡◌, ◌≢◌, sym, ◌∙◌, ap, arith}
use k_o11y_otel_gateway.Prelude.Results.{ok}
use k_o11y_otel_gateway.Opamp.Files.{Files, IsWritable, copy}
use k_o11y_otel_gateway.Opamp.Reload.{Restart, rollback_path, roll_back, reload}

rollback_path-ne : (path : String) → path ≢ rollback_path path
unfolding rollback_path
rollback_path-ne path e =
    let longer : count (String.◌++◌ path ".rollback") ≡ count path + 9 =
      length-append path ".rollback" in
    absurd (omega (arith, ap count e, longer))

module _ {F B C : Type 0} (files : Files F B) (restart : Restart F C) (path : String)
    (disk : IsWritable files) where
  copied :
      (src dest : String) (fs : F) (b : B)
      → files.read_file src fs ≡ ok b
      → copy files src dest fs ≡ (none, (files.write_file dest b fs).1)
  unfolding copy
  copied src dest fs b h = ground (arith, h, disk.writes dest b fs)

  -- What a reload leaves: the new contents and no error, or the old contents and an error.
  abbrev pub IsSettled : B → B → Option String × F × C → Type 0
  IsSettled old contents (none, fs, c) = files.read_file path fs ≡ ok contents
  IsSettled old contents (some e, fs, c) = files.read_file path fs ≡ ok old

  rolled_back :
      (old contents : B) (fs : F) (c : C)
      → files.read_file (rollback_path path) fs ≡ ok old
      → files.read_file path (roll_back files restart path fs c).0 ≡ ok old
  unfolding roll_back
  rolled_back old contents fs c h =
      ground (arith, copied (rollback_path path) path fs old h, disk.reads_back path old fs)

  -- On a disk whose writes succeed a reload that reports no error leaves the new contents in the
  -- configuration file, and one that reports an error leaves the contents that were there before.
  pub reload-IsSettled :
      (old contents : B) (fs : F) (c : C)
      → files.read_file path fs ≡ ok old
      → IsSettled old contents (reload files restart path contents fs c)
  unfolding reload
  reload-IsSettled old contents fs c h =
      let saved = (files.write_file (rollback_path path) old fs).1 in
      let fs' = (files.write_file path contents saved).1 in
      let kept : files.read_file (rollback_path path) fs' ≡ ok old =
        disk.leaves_others path (rollback_path path) contents saved
          (λ e. rollback_path-ne path (sym e))
        ∙ disk.reads_back (rollback_path path) old fs in
      ground (
        arith,
        copied path (rollback_path path) fs old h,
        disk.writes path contents saved,
        disk.reads_back path contents saved,
        rolled_back old contents fs' (restart fs' c).1 kept,
      )
