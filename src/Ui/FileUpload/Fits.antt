-- ===== src/Ui/FileUpload/Fits.antt =====
-- The files that are kept are within the limits.
use cloudscale_commerce.Prelude.{
  ℕ, zero, suc, ◌≤◌, ◌≡◌, refl, ltb, false, Bool-cases, inl, inr, if◌then◌else◌, Option, none, some,
  List, [], ◌∷◌, ◌++◌, find, All, All-append, All-take, length, length-take, arith, String,
}
use cloudscale_commerce.Ui.FileUpload.{
  File, Limits, Upload, Event, drag_over, drag_leave, drop, change, remove, head, present, without,
  add_checked, add_files, step, run,
}

abbrev pub IsSmall : Limits → Option File → Type 0
IsSmall limits none = Unit
IsSmall limits (some f) = f.size ≤ limits.max_size

abbrev pub cap : Limits → ℕ
cap limits = if limits.multiple then limits.max_files else 1

-- Every file that is kept is small enough, and there are no more than the component takes.
abbrev pub IsWithin : Limits → Upload → Type 0
IsWithin limits s = All (IsSmall limits) s.files × (length s.files ≤ cap limits)

present-All :
    (limits : Limits) (arr : List File)
    → find (λ f. ltb limits.max_size f.size) arr ≡ none
    → All (IsSmall limits) (present arr)
unfolding present
present-All limits [] e = tt
present-All limits (f ∷ arr) e = elim (Bool-cases (ltb limits.max_size f.size)) [
  | inl big ↦ absurd (grind (arith, e, big))
  | inr small ↦ (ground arith, present-All limits arr (grind (arith, e, small)))
]

head-All :
    (limits : Limits) (arr : List File)
    → All (IsSmall limits) (present arr)
    → All (IsSmall limits) (head arr ∷ [])
unfolding present head
head-All limits [] h = (tt, tt)
head-All limits (f ∷ arr) (p, h) = (p, tt)

add_checked-IsWithin :
    (shown : ℕ → String) (to_fixed1 : (bytes unit : ℕ) → String) (limits : Limits)
    (found : Option File) (arr : List File) (s : Upload)
    → find (λ f. ltb limits.max_size f.size) arr ≡ found
    → IsWithin limits s
    → IsWithin limits (add_checked shown to_fixed1 limits found arr s)
unfolding add_checked
add_checked-IsWithin shown to_fixed1 limits (some f) arr s e h = h
add_checked-IsWithin shown to_fixed1 limits none arr s e (small, few) =
    let arrived = present-All limits arr e in
    elim (Bool-cases limits.multiple) [
      | inl many ↦ simp many (
        All-take (IsSmall limits) limits.max_files (s.files ++ present arr)
            (All-append (IsSmall limits) s.files (present arr) small arrived),
        ground (arith, length-take limits.max_files (s.files ++ present arr)),
      )
      | inr single ↦ simp single (head-All limits arr arrived, omega arith)
    ]

without-All :
    (limits : Limits) (index : ℕ) (files : List (Option File))
    → All (IsSmall limits) files
    → All (IsSmall limits) (without index files)
unfolding without
without-All limits index [] h = tt
without-All limits zero (f ∷ files) (p, h) = h
without-All limits (suc index) (f ∷ files) (p, h) = (p, without-All limits index files h)

length-without :
    (index : ℕ) (files : List (Option File)) → length (without index files) ≤ length files
unfolding without
length-without index [] = omega arith
length-without zero (f ∷ files) = omega arith
length-without (suc index) (f ∷ files) = omega (arith, length-without index files)

step-IsWithin :
    (shown : ℕ → String) (to_fixed1 : (bytes unit : ℕ) → String) (limits : Limits) (e : Event)
    (s : Upload)
    → IsWithin limits s
    → IsWithin limits (step shown to_fixed1 limits e s)
unfolding step add_files
step-IsWithin shown to_fixed1 limits drag_over s h = h
step-IsWithin shown to_fixed1 limits drag_leave s h = h
step-IsWithin shown to_fixed1 limits (drop arr) s h = elim (Bool-cases limits.disabled) [
  | inl off ↦ simp off h
  | inr on ↦
      simp on
        (add_checked-IsWithin shown to_fixed1 limits _ arr (record s { drag_over = false }) refl h)
]
step-IsWithin shown to_fixed1 limits (change arr) s h =
    add_checked-IsWithin shown to_fixed1 limits _ arr s refl h
step-IsWithin shown to_fixed1 limits (remove index) s (small, few) =
    (without-All limits index s.files small, ground (arith, few, length-without index s.files))

-- Whatever is dropped, chosen and removed, in whatever order and starting from files within the limits:
-- each file that is kept is small enough, and there are at most as many as the component takes, which
-- is one where it does not take several.
pub run-IsWithin :
    (shown : ℕ → String) (to_fixed1 : (bytes unit : ℕ) → String) (limits : Limits)
    (events : List Event) (s : Upload)
    → IsWithin limits s
    → IsWithin limits (run shown to_fixed1 limits events s)
unfolding run
run-IsWithin shown to_fixed1 limits [] s h = h
run-IsWithin shown to_fixed1 limits (e ∷ events) s h =
    run-IsWithin shown to_fixed1 limits events (step shown to_fixed1 limits e s)
      (step-IsWithin shown to_fixed1 limits e s h)
