-- ===== src/I18n.antt =====
-- frontend/src/i18n/index.tsx: the locale, where it is kept, and the texts of the translations. `split`
-- and `replace` are the runtime's; the two files of texts are a parameter.
use Prim.Native.String
use cloudscale_commerce.Prelude.{
  ◌≡◌, refl, if◌then◌else◌, Option, none, some, List, [], ◌∷◌, find, foldl, String, str_eq,
}

pub data Locale : Type 0 where
  en es : Locale

abbrev pub Section : Type 0
Section = List (String × String)

abbrev pub TranslationMap : Type 0
TranslationMap = List (String × Section)

-- What `current` of `getNestedValue` holds.
data Current : Type 0 where
  whole : TranslationMap → Current
  section : Section → Current
  text : String → Current

-- A step down, where there is something under the part. Only own keys count.
child : String → Current → Option Current
child part (whole sections) = elim (find (λ s. str_eq (s.0) part) sections) [
  | none ↦ none
  | some s ↦ some (section (s.1))
]
child part (section entries) = elim (find (λ e. str_eq (e.0) part) entries) [
  | none ↦ none
  | some e ↦ some (text (e.1))
]
child part (text value) = none

walk : List String → Current → Option Current
unfolding child
walk [] current = some current
walk (part ∷ parts) current = elim (child part current) [
  | none ↦ none
  | some next ↦ walk parts next
]

found_or : String → Option Current → String
found_or key (some (text value)) = value
found_or key _ = key

pub get_nested_value : (split : String → List String) → TranslationMap → String → String
unfolding walk found_or
get_nested_value split obj key = found_or key (walk (split key) (whole obj))

-- `params` in the order of `Object.entries`, empty where there are none.
pub t :
    (split : String → List String) (replace : (text pattern by : String) → String)
    (translations : Locale → TranslationMap)
    → Locale
    → String
    → (params : List (String × String)) → String
unfolding get_nested_value
t split replace translations locale key params =
    foldl (λ value p. replace value (String.◌++◌ "{{" (String.◌++◌ (p.0) "}}")) (p.1))
      (get_nested_value split (translations locale) key) params

abbrev code_of : Locale → String
code_of en = "en"
code_of es = "es"

pub label_of : Locale → String
label_of en = "English"
label_of es = "Español"

-- The provider, what the storage holds, and what the document is told.
pub record I18n : Type 0 where
  pub locale : Locale
  pub stored : Option String
  pub lang : Option String
  pub dir : Option String

-- No locale is written from the right to the left.
dir_of : Locale → String
dir_of locale = "ltr"

-- `stored in translations`
locale_of : Option String → Locale
locale_of none = en
locale_of (some name) = if str_eq name "es" then es else en

pub open_provider : Option String → I18n
unfolding locale_of
open_provider stored = record {
  locale = locale_of stored;
  stored = stored;
  lang = none;
  dir = none;
}

pub set_locale : Locale → I18n → I18n
unfolding dir_of
set_locale new_locale s = record {
  locale = new_locale;
  stored = some (code_of new_locale);
  lang = some (code_of new_locale);
  dir = some (dir_of new_locale);
}

-- A locale that is chosen is the locale of the provider that is opened next.
pub open_provider-set_locale :
    (locale : Locale) (s : I18n) → (open_provider (set_locale locale s).stored).locale ≡ locale
unfolding open_provider set_locale locale_of
open_provider-set_locale en s = refl
open_provider-set_locale es s = refl
