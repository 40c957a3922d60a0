-- ===== src/NodePlugin/SpecFile.antt =====
-- writeSpec of cdi.go by its system calls: what it does to the files of the spec directory, and what
-- a power loss leaves of them. The answers to the calls are its input.
pub mod Crash
pub mod Refines
use Prim.Native.String.{◌++◌}
use llmfit_dra.Prelude.{
  String, Option, none, some, List, [], ◌∷◌, Bool, true, false, ◌==◌, if◌then◌else◌,
}
use llmfit_dra.NodePlugin.Edits.{CdiDevice}

-- `cdiSpec`: the contents of a file.
pub record CdiSpec : Type 0 where
  pub cdi_version : String
  pub kind : String
  pub devices : List CdiDevice

abbrev pub cdi_spec : List CdiDevice → CdiSpec
cdi_spec devices = record { cdi_version = "0.6.0"; kind = "llmfit.ai/device"; devices = devices }

-- `synced` tells that the content has reached the disk.
pub record File : Type 0 where
  pub content : String
  pub synced : Bool

-- The files of the directory, by their names.
abbrev pub Files : Type 0
Files = String → Option File

-- `specPath`, inside the directory.
unfoldable pub spec_path : String → String
spec_path uid = "llmfit.ai-" ++ uid ++ ".json"

-- The name that `os.CreateTemp` makes of the pattern and its random part.
unfoldable pub temp_name : String → String
temp_name random = ".llmfit-" ++ random ++ ".json.tmp"

-- The calls that change the directory. A close changes nothing.
pub data SysCall : Type 0 where
  create_temp : String → SysCall
  write_file : String → String → SysCall
  sync_file : String → SysCall
  rename_file : String → String → SysCall
  remove_file : String → SysCall

unfoldable pub put : String → Option File → Files → Files
put name f dir m = if name == m then f else dir m

abbrev pub mark_synced : Option File → Option File
mark_synced none = none
mark_synced (some f) = some (record f { synced = true })

unfoldable pub run_call : SysCall → Files → Files
run_call (create_temp name) dir = put name (some (record { content = ""; synced = false })) dir
run_call (write_file name text) dir =
    put name (some (record { content = text; synced = false })) dir
run_call (sync_file name) dir = put name (mark_synced (dir name)) dir
run_call (rename_file from to) dir = put from none (put to (dir from) dir)
run_call (remove_file name) dir = put name none dir

unfoldable pub run_calls : List SysCall → Files → Files
run_calls [] dir = dir
run_calls (c ∷ rest) dir = run_calls rest (run_call c dir)

-- What the calls answer: `none` is success. `create` has the random part of the temporary name, or
-- `none` with the error in `create_error`. A failed write may have written a part.
pub record WriteAnswers : Type 0 where
  pub mkdir : Option String
  pub marshal : Option String
  pub create : Option String
  pub create_error : String
  pub written : String
  pub write : Option String
  pub sync : Option String
  pub close : Option String
  pub rename : Option String

-- `if err != nil { return err }` with the deferred removal of the temporary file, and the rest.
abbrev pub or_rest :
    Option String → String → List SysCall × Option String → List SysCall × Option String
or_rest none temp rest = rest
or_rest (some e) temp rest = (remove_file temp ∷ [], some e)

abbrev pub then_call : SysCall → List SysCall × Option String → List SysCall × Option String
then_call c r = (c ∷ r.0, r.1)

-- From the write on.
unfoldable pub fill_temp : WriteAnswers → String → String → String → List SysCall × Option String
fill_temp a uid text temp = elim a.write [
  | some e ↦ (write_file temp a.written ∷ remove_file temp ∷ [], some e)
  | none ↦ then_call (write_file temp text) (
      or_rest a.sync temp (
        then_call (sync_file temp) (
          or_rest a.close temp (
            or_rest a.rename temp
              (rename_file temp (spec_path uid) ∷ remove_file temp ∷ [], none)))))
]

unfoldable pub with_temp :
    WriteAnswers → String → String → Option String → List SysCall × Option String
with_temp a uid text none = ([], some a.create_error)
with_temp a uid text (some random) =
    then_call (create_temp (temp_name random)) (fill_temp a uid text (temp_name random))

-- `writeSpec`: the calls that it makes, and its answer. `encode` is what `json.MarshalIndent`
-- makes of a spec.
unfoldable pub write_spec_calls :
    (CdiSpec → String) → WriteAnswers → String → List CdiDevice → List SysCall × Option String
write_spec_calls encode a uid devices = elim a.mkdir [
  | some e ↦ ([], some ("creating CDI dir: " ++ e))
  | none ↦ (elim a.marshal [
    | some e ↦ ([], some e)
    | none ↦ with_temp a uid (encode (cdi_spec devices)) a.create
  ])
]

-- After a power loss a file that was not synced has any content.
abbrev pub after_loss : (String → String) → String → Option File → Option File
after_loss torn name none = none
after_loss torn name (some f) =
    some (if f.synced then f else record { content = torn name; synced = false })

abbrev pub power_loss : (String → String) → Files → Files
power_loss torn dir name = after_loss torn name (dir name)
