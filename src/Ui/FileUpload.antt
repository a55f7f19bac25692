-- ===== src/Ui/FileUpload.antt =====
-- frontend/src/components/ui/FileUpload.tsx: the files that are chosen. `shown` and `to_fixed1` are the
-- texts that the runtime gives for a number and for a quotient with one digit.
pub mod Fits
use Prim.Native.String
use cloudscale_commerce.Prelude.{
  ℕ, zero, suc, ◌*◌, ltb, Bool, true, false, if◌then◌else◌, Option, none, some, List, [], ◌∷◌, ◌++◌,
  take, find, String,
}

pub record File : Type 0 where
  pub name : String
  pub size : ℕ

-- The properties of the component that count.
pub record Limits : Type 0 where
  pub multiple : Bool
  pub max_size : ℕ
  pub max_files : ℕ
  pub disabled : Bool

pub record Upload : Type 0 where
  pub files : List (Option File)  -- `arr[0]` of no files at all is there too
  pub drag_over : Bool
  pub file_error : Option String

unfoldable pub initial : Upload
initial = record { files = []; drag_over = false; file_error = none }

pub data Event : Type 0 where
  drag_over drag_leave : Event
  drop change : List File → Event
  remove : ℕ → Event

head : List File → Option File
head [] = none
head (f ∷ files) = some f

present : List File → List (Option File)
present [] = []
present (f ∷ files) = some f ∷ present files

-- `files.filter((_, i) => i !== index)`
without : ℕ → List (Option File) → List (Option File)
without index [] = []
without zero (f ∷ files) = files
without (suc index) (f ∷ files) = f ∷ without index files

module _ (shown : ℕ → String) (to_fixed1 : (bytes unit : ℕ) → String) where
  format_size : ℕ → String
  format_size bytes =
      if ltb bytes 1_024
      then String.◌++◌ (shown bytes) " B"
      else if ltb bytes (1_024 * 1_024)
      then String.◌++◌ (to_fixed1 bytes 1_024) " KB"
      else String.◌++◌ (to_fixed1 bytes (1_024 * 1_024)) " MB"

  -- The new state with the files of the old one, as the callback has them.
  add_checked : Limits → Option File → List File → Upload → Upload
  unfolding format_size head present
  add_checked limits (some oversized) arr s = record s {
    file_error = some (
        String.◌++◌ oversized.name
          (String.◌++◌ " exceeds " (String.◌++◌ (format_size limits.max_size) " limit")));
  }
  add_checked limits none arr s = record s {
    file_error = none;
    files =
        if limits.multiple then take limits.max_files (s.files ++ present arr) else head arr ∷ [];
  }

  pub add_files : Limits → List File → Upload → Upload
  unfolding add_checked
  add_files limits arr s = add_checked limits (find (λ f. ltb limits.max_size f.size) arr) arr s

  pub step : Limits → Event → Upload → Upload
  unfolding add_files without
  step limits drag_over s = record s { drag_over = true }
  step limits drag_leave s = record s { drag_over = false }
  step limits (drop arr) s =
      let left = record s { drag_over = false } in
      if limits.disabled then left else add_files limits arr left
  step limits (change arr) s = add_files limits arr s
  step limits (remove index) s = record s { files = without index s.files }

  pub run : Limits → List Event → Upload → Upload
  unfolding step
  run limits [] s = s
  run limits (e ∷ events) s = run limits events (step limits e s)
