-- ===== src/Security/Storage/Laws.antt =====
-- What `getItem` returns after the other operations, and after a change of the stored text.
use cloudscale_commerce.Prelude.{
  ℕ, ◌≡◌, ◌≢◌, refl, ◌∙◌, true, false, not, ◌&&◌, ◌||◌, Bool-cases, inl, inr, if◌then◌else◌, none,
  some, [], ◌∷◌, ◌++◌, All, arith,
}
use cloudscale_commerce.Text.{Text, text_eq}
use cloudscale_commerce.Text.Equality.{text_eq_iff, text_eq_refl}
use cloudscale_commerce.Security.Checksum.{compute_hash}
use cloudscale_commerce.Security.Checksum.Detects.{IsUnit, compute_hash_detects}
use cloudscale_commerce.Security.Storage.{
  Codec, IsCodec, LocalStorage, lookup, store, erase, full_key, signed, verified, opened, Fits, put,
  try_set_item, catch_set_item, or_thrown, set_item, get_item, remove_item,
}

lookup-store :
    (q k v : Text) (storage : LocalStorage)
    → lookup q (store k v storage) ≡ (if text_eq k q then some v else lookup q storage)
unfolding lookup store
lookup-store q k v [] = refl
lookup-store q k v ((j, w) ∷ rest) =
    ground (arith, lookup-store q k v rest, text_eq_iff j k, text_eq_iff j q, text_eq_iff k q)

lookup-erase :
    (q k : Text) (storage : LocalStorage)
    → lookup q (erase k storage) ≡ (if text_eq k q then none else lookup q storage)
unfolding lookup erase
lookup-erase q k [] = ground arith
lookup-erase q k ((j, w) ∷ rest) =
    ground (arith, lookup-erase q k rest, text_eq_iff j k, text_eq_iff j q, text_eq_iff k q)

text_ne : (s t : Text) → s ≢ t → text_eq s t ≡ false
text_ne s t differ = ground (arith, text_eq_iff s t)

full_key-eq : (k q : Text) → text_eq (full_key k) (full_key q) ≡ text_eq k q
unfolding full_key text_eq
full_key-eq k q = refl

module _ {V : Type 0} (codec : Codec V) where
  -- After `removeItem` the key has no value, and every other key has the one that it had.
  pub get_item-remove_item :
      (q k : Text) (storage : LocalStorage)
      → get_item codec q (remove_item k storage)
        ≡ (if text_eq k q then none else get_item codec q storage)
  unfolding get_item remove_item
  get_item-remove_item q k storage = elim (Bool-cases (text_eq k q)) [
    | inl same ↦ rw (lookup-erase, full_key-eq, same) refl
    | inr other ↦ rw (lookup-erase, full_key-eq, other) refl
  ]

  module _ (laws : IsCodec codec) where
    opened-wrap : (d s : Text) → opened codec (codec.wrap d s) ≡ verified codec (d, s)
    unfolding opened
    opened-wrap d s =
        rw (text_ne (codec.wrap d s) [] (laws.wrap_not_empty d s), laws.unwrap-wrap d s) refl

    -- The stored text of a value that JSON reads back opens to the value, the empty one to nothing.
    opened-signed :
        (v : V) (t encoded : Text)
        → codec.encode t ≡ some encoded
        → codec.parse t ≡ some v
        → opened codec (signed codec encoded) ≡ some v
    unfolding signed verified
    opened-signed v t encoded coded back =
        opened-wrap encoded (compute_hash encoded)
        ∙ rw (text_eq_refl (compute_hash encoded), laws.decode-encode t encoded coded, back) refl

    opened_empty : opened codec (codec.wrap [] []) ≡ none
    opened_empty = opened-wrap [] [] ∙ unfold verified compute_hash text_eq in refl

    get_item-store :
        (q k text : Text) (storage : LocalStorage)
        → get_item codec q (store (full_key k) text storage)
          ≡ (if text_eq k q then opened codec text else get_item codec q storage)
    unfolding get_item
    get_item-store q k text storage = elim (Bool-cases (text_eq k q)) [
      | inl same ↦ rw (lookup-store, full_key-eq, same) refl
      | inr other ↦ rw (lookup-store, full_key-eq, other) refl
    ]

    caught_empty :
        (fits : Fits) (k : Text) (storage : LocalStorage)
        → fits (full_key k) (codec.wrap [] []) storage ≡ true
        → catch_set_item codec fits k storage none
          ≡ (store (full_key k) (codec.wrap [] []) storage, false)
    unfolding catch_set_item put or_thrown
    caught_empty fits k storage takes_empty = rw takes_empty refl

    caught_blocked :
        (fits : Fits) (k : Text) (storage : LocalStorage)
        → fits (full_key k) (codec.wrap [] []) storage ≡ false
        → catch_set_item codec fits k storage none ≡ (storage, true)
    unfolding catch_set_item put or_thrown
    caught_blocked fits k storage blocked = rw blocked refl

    -- A value that JSON writes and reads back, and whose text can be encoded, is put under a key. Where
    -- the storage takes it, `getItem` of the key returns the value; where it takes only the empty
    -- record, nothing; where it takes neither, `setItem` throws, and what it returned before. Of every
    -- other key it always returns what it returned before.
    pub get_item-set_item :
        (fits : Fits) (q k : Text) (v : V) (t encoded : Text) (storage : LocalStorage)
        → codec.stringify v ≡ some t
        → codec.encode t ≡ some encoded
        → codec.parse t ≡ some v
        → let (after, threw) = set_item codec fits k v storage in
          let text = codec.wrap encoded (compute_hash encoded) in
          let takes_it = fits (full_key k) text storage in
          let takes_empty = fits (full_key k) (codec.wrap [] []) storage in
          (threw ≡ not (takes_it || takes_empty))
          × (get_item codec q after ≡ (
              if text_eq k q && takes_it
              then some v
              else if text_eq k q && takes_empty
              then none
              else get_item codec q storage))
    unfolding set_item try_set_item catch_set_item put signed
    get_item-set_item fits q k v t encoded storage written coded back =
        let text = codec.wrap encoded (compute_hash encoded) in
        let opens : opened codec text ≡ some v =
          unfold signed in opened-signed v t encoded coded back in
        rw (written, coded)
          (elim (Bool-cases (fits (full_key k) text storage)) [
            | inl takes_it ↦ rw (takes_it, get_item-store, opens) (ground arith)
            | inr full ↦ elim (Bool-cases (fits (full_key k) (codec.wrap [] []) storage)) [
              | inl takes_empty ↦
                  rw
                    (
                      full,
                      caught_empty fits k storage takes_empty,
                      takes_empty,
                      get_item-store,
                      opened_empty,
                    )
                    (ground arith)
              | inr blocked ↦
                  rw (full, caught_blocked fits k storage blocked, blocked) (ground arith)
            ]
          ])

    -- A stored text whose data was changed in one code unit, its checksum kept, is refused.
    pub get_item_tampered :
        (key s t : Text) (c d : ℕ) (storage : LocalStorage)
        → All IsUnit s
        → All IsUnit t
        → IsUnit c
        → IsUnit d
        → c ≢ d
        → lookup (full_key key) storage ≡ some (codec.wrap (s ++ d ∷ t) (compute_hash (s ++ c ∷ t)))
        → get_item codec key storage ≡ none
    unfolding get_item verified
    get_item_tampered key s t c d storage us ut uc ud differ found = rw found (
        opened-wrap (s ++ d ∷ t) (compute_hash (s ++ c ∷ t))
        ∙ rw (text_ne _ _ (compute_hash_detects s t c d us ut uc ud differ)) refl)
