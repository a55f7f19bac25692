-- ===== src/Security/Storage.antt =====
-- `secureStorage` of frontend/src/lib/security.ts over `localStorage`. JSON, base64 and UTF-8 are the
-- runtime's: their functions and what the code relies on are a parameter.
pub mod Laws
use cloudscale_commerce.Prelude.{
  ◌≡◌, ◌≢◌, refl, Bool, true, false, not, Bool-cases, inl, inr, if◌then◌else◌, Option, none, some,
  ◌>>=◌, List, [], ◌∷◌, ◌++◌, arith,
}
use cloudscale_commerce.Text.{Text, literal, text_eq}
use cloudscale_commerce.Text.Equality.{text_eq_iff, text_eq_refl}
use cloudscale_commerce.Security.Checksum.{compute_hash}

-- `none` where the function throws; `stringify` and `parse` need not give back what they were given, since
-- JSON has no text for some values, and `undefined`, `NaN` and dates are read back as others. `wrap` and `unwrap` are JSON of `{ d, s }`.
pub record Codec (V : Type 0) : Type 0 where
  pub stringify : V → Option Text
  pub encode : Text → Option Text  -- `btoa(unescape(encodeURIComponent(s)))`
  pub decode : Text → Option Text  -- `decodeURIComponent(escape(atob(s)))`
  pub parse : Text → Option V
  pub wrap : (d s : Text) → Text
  pub unwrap : Text → Option (Text × Text)

-- The round trips of base64 and of JSON of two texts, and that JSON of an object is not the empty text.
pub record IsCodec {V : Type 0} (codec : Codec V) : Type 0 where
  pub decode-encode : (t e : Text) → codec.encode t ≡ some e → codec.decode e ≡ some t
  pub unwrap-wrap : (d s : Text) → codec.unwrap (codec.wrap d s) ≡ some (d, s)
  pub wrap_not_empty : (d s : Text) → codec.wrap d s ≢ []

abbrev pub LocalStorage : Type 0
LocalStorage = List (Text × Text)

unfoldable pub lookup : Text → LocalStorage → Option Text
lookup key [] = none
lookup key ((k, v) ∷ rest) = let found = lookup key rest in if text_eq k key then some v else found

store : Text → Text → LocalStorage → LocalStorage
store key value [] = (key, value) ∷ []
store key value ((k, v) ∷ rest) =
    let later = store key value rest in
    if text_eq k key then (key, value) ∷ rest else (k, v) ∷ later

-- Whether the storage takes the text under the key: it may be full, or blocked.
abbrev pub Fits : Type 0
Fits = (key text : Text) → LocalStorage → Bool

-- `localStorage.setItem`, which throws where it does not.
put : Fits → (key text : Text) → LocalStorage → Option LocalStorage
unfolding store
put fits key text storage = if fits key text storage then some (store key text storage) else none

or_thrown : LocalStorage → Option LocalStorage → LocalStorage × Bool
or_thrown storage none = (storage, true)
or_thrown storage (some stored) = (stored, false)

erase : Text → LocalStorage → LocalStorage
erase key [] = []
erase key ((k, v) ∷ rest) =
    let later = erase key rest in if text_eq k key then later else (k, v) ∷ later

-- `cs_${key}`
unfoldable pub full_key : Text → Text
full_key key = literal "cs_" ++ key

module _ {V : Type 0} (codec : Codec V) where
  open codec use {stringify, encode, decode, parse, wrap, unwrap}

  -- The text that `setItem` stores.
  pub signed : Text → Text
  signed encoded = wrap encoded (compute_hash encoded)

  -- The `try` of `setItem`, and its `catch`, which may throw too: the storage, and whether it threw.
  try_set_item : (fits : Fits) (key : Text) → V → LocalStorage → Option LocalStorage
  unfolding signed
  try_set_item fits key value storage = do
    json ← stringify value
    encoded ← encode json
    put fits (full_key key) (signed encoded) storage

  catch_set_item :
      (fits : Fits) (key : Text) → LocalStorage → Option LocalStorage → LocalStorage × Bool
  unfolding or_thrown
  catch_set_item fits key storage (some stored) = (stored, false)
  catch_set_item fits key storage none =
      or_thrown storage (put fits (full_key key) (wrap [] []) storage)

  pub set_item : (fits : Fits) (key : Text) → V → LocalStorage → LocalStorage × Bool
  unfolding try_set_item catch_set_item
  set_item fits key value storage =
      catch_set_item fits key storage (try_set_item fits key value storage)

  -- What `getItem` makes of the parsed object.
  verified : Text × Text → Option V
  verified (encoded, checksum) =
      if not (text_eq checksum (compute_hash encoded))
      then none
      else (do decoded ← decode encoded; parse decoded)

  -- `if (!stored) return null`
  opened : Text → Option V
  opened stored = if text_eq stored [] then none else unwrap stored >>= verified

  pub get_item : (key : Text) → LocalStorage → Option V
  get_item key storage = lookup (full_key key) storage >>= opened

pub remove_item : (key : Text) → LocalStorage → LocalStorage
remove_item key storage = erase (full_key key) storage
