-- ===== src/Security/Tests.antt =====
-- Runs of the security helpers, and the theorems at concrete texts.
use cloudscale_commerce.Prelude.{
  ◌≡◌, ◌≢◌, refl, false, ltb, ap, some, none, Option, [], ◌∷◌, ◌++◌, length, take, drop, arith,
}
use cloudscale_commerce.Text.{Text, literal, text_eq}
use cloudscale_commerce.Security.Checksum.{compute_hash}
use cloudscale_commerce.Security.Checksum.Detects.{compute_hash_detects}
use cloudscale_commerce.Security.Storage.{Codec, Fits, IsCodec, LocalStorage, set_item, get_item}
use cloudscale_commerce.Security.Storage.Laws.{get_item-set_item}

hash_of_nothing : compute_hash [] ≡ literal "1505"
unfolding compute_hash
hash_of_nothing = refl

hash_wraps : compute_hash (literal "eyJhZG1pbiI6dHJ1ZX0=") ≡ literal "bd445eb"
unfolding compute_hash
hash_wraps = refl

compute_hash_detects_example :
    compute_hash (literal "user=" ++ 97 ∷ literal ";")
    ≢ compute_hash (literal "user=" ++ 98 ∷ literal ";")
compute_hash_detects_example =
    compute_hash_detects (literal "user=") (literal ";") 97 98 (omega arith) (omega arith)
      (omega arith) (omega arith) (omega arith)

-- A codec that writes the length of the data before it.
abbrev unwrap_pair : Text → Option (Text × Text)
unwrap_pair [] = none
unwrap_pair (n ∷ s) = some (take n s, drop n s)

abbrev plain : Codec Text
plain = record {
  stringify = λ v. some v;
  encode = λ t. some t;
  decode = λ t. some t;
  parse = λ t. some t;
  wrap = λ d s. length d ∷ (d ++ s);
  unwrap = unwrap_pair;
}

take-append : (d s : Text) → take (length d) (d ++ s) ≡ d
take-append [] s = refl
take-append (c ∷ d) s = ap (◌∷◌ c) (take-append d s)

drop-append : (d s : Text) → drop (length d) (d ++ s) ≡ s
drop-append [] s = refl
drop-append (c ∷ d) s = drop-append d s

plain-IsCodec : IsCodec plain
plain-IsCodec = record {
  decode-encode = λ t e h. cc;
  unwrap-wrap = λ d s. λ i. some (take-append d s i, drop-append d s i);
  wrap_not_empty = λ d s e. cc;
}

-- A storage that takes texts of less than 100 code units.
abbrev short : Fits
short key text storage = ltb (length text) 100

get_item-set_item_example :
    let (after, threw) = set_item plain short (literal "role") (literal "admin") [] in
    (threw ≡ false) × (get_item plain (literal "role") after ≡ some (literal "admin"))
unfolding text_eq compute_hash
get_item-set_item_example =
    get_item-set_item plain plain-IsCodec short (literal "role") (literal "role") (literal "admin")
      (literal "admin") (literal "admin") [] refl refl refl

-- The data `admin` in place of the signed `admix`.
abbrev forged : LocalStorage
forged = (literal "cs_role", 5 ∷ (literal "admin" ++ compute_hash (literal "admix"))) ∷ []
