-- ===== src/Pages/Autosave.antt =====
-- frontend/src/lib/useFormAutosave.ts: the draft of a form in the storage, and the timer that saves
-- it. A draft is read back as it was saved, which holds of forms whose fields are texts.
use cloudscale_commerce.Prelude.{Bool, true, false, not, if◌then◌else◌, Option, none, some}

-- `storage` is nothing where the browser refuses the storage, and else the draft under the key.
pub record Autosave (D : Type 0) : Type 0 where
  pub storage : Option (Option D)
  pub timer : Option D
  pub initial_mount : Bool

module _ {D : Type 0} where
  unfoldable pub mount : Option (Option D) → Autosave D
  mount storage = record { storage = storage; timer = none; initial_mount = true }

  -- What the storage gives, and what is in it once the draft is removed.
  unfoldable pub read : Option (Option D) → Option D
  read none = none
  read (some draft) = draft

  unfoldable pub erased : Option (Option D) → Option (Option D)
  erased none = none
  erased (some draft) = some none

  unfoldable pub get_saved_draft : Autosave D → Option D
  unfolding read
  get_saved_draft s = read s.storage

  unfoldable pub clear_draft : Autosave D → Autosave D
  unfolding erased
  clear_draft s = record s { storage = erased s.storage }

  -- The effect, after the cleanup of the effect before it.
  unfoldable pub effect : (enabled : Bool) → D → Autosave D → Autosave D
  effect enabled content s =
      if not enabled
      then record s { timer = none }
      else if s.initial_mount
      then record s { timer = none; initial_mount = false }
      else record s { timer = some content }

  -- `fits` says whether the storage takes the draft.
  unfoldable pub save : (fits : Bool) → D → Option (Option D) → Option (Option D)
  save fits content none = none
  save fits content (some draft) = if fits then some (some content) else some draft

  unfoldable pub fired : (fits : Bool) → Option D → Autosave D → Autosave D
  unfolding save
  fired fits none s = s
  fired fits (some content) s = record s { storage = save fits content s.storage; timer = none }

  unfoldable pub on_timer : (fits : Bool) → Autosave D → Autosave D
  unfolding fired
  on_timer fits s = fired fits s.timer s
