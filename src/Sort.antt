-- ===== src/Sort.antt =====
-- `Array.prototype.sort` of the runtime: stable, by the sign of a comparison. What it makes of a
-- comparison that is not an order is the engine's own choice; the laws on order ask for one.
use mathlib.Core.List.{Perm}
use mathlib.Core.List.Perm
use cloudscale_commerce.Prelude.{
  ◌≡◌, Bool, true, false, Bool-cases, inl, inr, if◌then◌else◌, List, [], ◌∷◌, All,
}

-- The sign of what a comparison returns.
pub data Sign : Type 0 where
  minus equal plus : Sign

unfoldable pub negate : Sign → Sign
negate minus = plus
negate equal = equal
negate plus = minus

unfoldable pub is_plus : Sign → Bool
is_plus plus = true
is_plus _ = false

module _ {A : Type 0} where
  -- An item goes behind those that the comparison puts before it.
  insert : (A → A → Sign) → A → List A → List A
  unfolding is_plus
  insert cmp a [] = a ∷ []
  insert cmp a (b ∷ rest) =
      let later = insert cmp a rest in if is_plus (cmp a b) then b ∷ later else a ∷ b ∷ rest

  pub sort : (A → A → Sign) → List A → List A
  unfolding insert
  sort cmp [] = []
  sort cmp (a ∷ rest) = insert cmp a (sort cmp rest)

  insert-Perm : (cmp : A → A → Sign) (a : A) (xs : List A) → Perm (insert cmp a xs) (a ∷ xs)
  unfolding insert
  insert-Perm cmp a [] = Perm.refl (a ∷ [])
  insert-Perm cmp a (b ∷ rest) = elim (Bool-cases (is_plus (cmp a b))) [
    | inl behind ↦
        rw behind (Perm.trans (Perm.cons b (insert-Perm cmp a rest)) (Perm.swap a b rest))
    | inr here ↦ rw here (Perm.refl (a ∷ b ∷ rest))
  ]

  pub sort-Perm : (cmp : A → A → Sign) (xs : List A) → Perm (sort cmp xs) xs
  unfolding sort
  sort-Perm cmp [] = Perm.refl []
  sort-Perm cmp (a ∷ rest) =
      Perm.trans (insert-Perm cmp a (sort cmp rest)) (Perm.cons a (sort-Perm cmp rest))

  insert-All :
      (P : A → Type 0) (cmp : A → A → Sign) (a : A) (xs : List A)
      → P a
      → All P xs
      → All P (insert cmp a xs)
  unfolding insert
  insert-All P cmp a [] p h = (p, tt)
  insert-All P cmp a (b ∷ rest) p (q, h) = elim (Bool-cases (is_plus (cmp a b))) [
    | inl behind ↦ rw behind (q, insert-All P cmp a rest p h)
    | inr here ↦ rw here (p, (q, h))
  ]

  pub sort-All :
      (P : A → Type 0) (cmp : A → A → Sign) (xs : List A) → All P xs → All P (sort cmp xs)
  unfolding sort
  sort-All P cmp [] h = tt
  sort-All P cmp (a ∷ rest) (p, h) = insert-All P cmp a (sort cmp rest) p (sort-All P cmp rest h)

  -- Every item is in the relation to those behind it.
  abbrev pub IsOrdered : (A → A → Type 0) → List A → Type 0
  IsOrdered R [] = Unit
  IsOrdered R (a ∷ rest) = All (R a) rest × IsOrdered R rest

  -- A relation that the comparison decides, among the items that `P` holds of.
  pub record Decides (P : A → Type 0) (R : A → A → Type 0) (cmp : A → A → Sign) : Type 0 where
    pub behind : (a b : A) → P a → P b → is_plus (cmp a b) ≡ true → R b a
    pub before : (a b : A) → P a → P b → is_plus (cmp a b) ≡ false → R a b
    pub trans : (a b c : A) → R a b → R b c → R a c

  module _ (P : A → Type 0) (R : A → A → Type 0) (cmp : A → A → Sign) (d : Decides P R cmp) where
    All-behind : (a b : A) (xs : List A) → R a b → All (R b) xs → All (R a) xs
    All-behind a b [] h k = tt
    All-behind a b (x ∷ xs) h (kx, k) = (d.trans a b x h kx, All-behind a b xs h k)

    insert-IsOrdered :
        (a : A) (xs : List A) → P a → All P xs → IsOrdered R xs → IsOrdered R (insert cmp a xs)
    unfolding insert
    insert-IsOrdered a [] p h o = (tt, tt)
    insert-IsOrdered a (b ∷ rest) p (q, h) (ob, o) = elim (Bool-cases (is_plus (cmp a b))) [
      | inl later ↦
          rw later
            (insert-All (R b) cmp a rest (d.behind a b p q later) ob, insert-IsOrdered a rest p h o)
      | inr here ↦
          let first = d.before a b p q here in
          rw here ((first, All-behind a b rest first ob), (ob, o))
    ]

    pub sort-IsOrdered : (xs : List A) → All P xs → IsOrdered R (sort cmp xs)
    unfolding sort
    sort-IsOrdered [] h = tt
    sort-IsOrdered (a ∷ rest) (p, h) =
        insert-IsOrdered a (sort cmp rest) p (sort-All P cmp rest h) (sort-IsOrdered rest h)
