-- ===== src/Opamp/Files.antt =====
-- What opamp asks of the operating system, and copy of opamp/helpers.go. A file's contents are any
-- type of bytes, and `F` is the state of the file system.
use k_o11y_otel_gateway.Prelude.{String, Option, none, some, ◌≡◌, ◌≢◌}
use k_o11y_otel_gateway.Prelude.Results.{Result, ok, err}

-- `os.ReadFile` and `os.WriteFile`, with the error that a write returns.
pub record Files (F B : Type 0) : Type 0 where
  pub read_file : String → F → Result B
  pub write_file : String → B → F → Option String × F

-- What is written is read back, a write leaves other files alone, and on this disk writes succeed.
pub record IsWritable {F B : Type 0} (files : Files F B) : Type 0 where
  pub writes : (path : String) (b : B) (fs : F) → (files.write_file path b fs).0 ≡ none
  pub reads_back :
      (path : String) (b : B) (fs : F) → files.read_file path (files.write_file path b fs).1 ≡ ok b
  pub leaves_others :
      (path other : String) (b : B) (fs : F)
      → other ≢ path
      → files.read_file other (files.write_file path b fs).1 ≡ files.read_file other fs

module _ {F B : Type 0} (files : Files F B) where
  unfoldable pub copy : String → String → F → Option String × F
  copy src dest fs = elim (files.read_file src fs) [
    | err e ↦ (some "failed to read source file", fs)
    | ok contents ↦
        let (failed, fs') = files.write_file dest contents fs in
        elim failed [ some e ↦ (some "failed to write to dest file", fs') | none ↦ (none, fs') ]
  ]
