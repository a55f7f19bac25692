-- ===== src/Shell/Seo.antt =====
-- frontend/src/components/SEO.tsx: what a page writes into the head of the document. `stringify` is
-- `JSON.stringify`, `starts_with_http` is `startsWith("http")` of the runtime.
pub mod Laws
use Prim.Native.String
use cloudscale_commerce.Prelude.{
  Bool, true, false, not, ◌&&◌, if◌then◌else◌, Option, none, some, List, [], ◌∷◌, ◌++◌, foldl, drop,
  String, str_eq,
}
use cloudscale_commerce.Pages.Answers.{or_else}

pub record SeoProps (D : Type 0) : Type 0 where
  pub title : Option String
  pub description : String
  pub canonical : Option String
  pub og_image : String
  pub og_type : String
  pub twitter_card : String
  pub structured_data : Option D
  pub noindex : Bool

-- A `meta` element; it carries its name as `property` or as `name`.
pub record Meta : Type 0 where
  pub is_property : Bool
  pub name : String
  pub content : String

pub record Link : Type 0 where
  pub rel : String
  pub href : String

-- The elements of each kind in the order of the document; `structured` is the texts of those whose id
-- is `structured-data`.
pub record Head : Type 0 where
  pub title : String
  pub metas : List Meta
  pub links : List Link
  pub structured : List String

abbrev base_title : String
base_title = "CloudScale Commerce"

-- The selector `meta[property="…"]`, or `meta[name="…"]`.
unfoldable pub selects : (is_property : Bool) → String → Meta → Bool
selects true name m = m.is_property && str_eq m.name name
selects false name m = not m.is_property && str_eq m.name name

pub set_meta : (name content : String) → (is_property : Bool) → List Meta → List Meta
unfolding selects
set_meta name content is_property [] =
    record { is_property = is_property; name = name; content = content } ∷ []
set_meta name content is_property (m ∷ metas) =
    let later = set_meta name content is_property metas in
    if selects is_property name m then record m { content = content } ∷ metas else m ∷ later

pub set_link : (rel href : String) → List Link → List Link
set_link rel href [] = record { rel = rel; href = href } ∷ []
set_link rel href (l ∷ links) =
    let later = set_link rel href links in
    if str_eq l.rel rel then record l { href = href } ∷ links else l ∷ later

-- `if (text)`
unfoldable pub given : Option String → Bool
given none = false
given (some text) = not (str_eq text "")

full_title : Option String → String
full_title none = base_title
full_title (some title) =
    if str_eq title "" then base_title else String.◌++◌ title (String.◌++◌ " | " base_title)

-- `if (canonical) setLink("canonical", canonical)`
set_canonical : Option String → List Link → List Link
set_canonical none links = links
set_canonical (some href) links = if str_eq href "" then links else set_link "canonical" href links

-- The element that is there is removed, and a new one is appended where there are data.
write_structured : {D : Type 0} → (stringify : D → String) → Option D → List String → List String
write_structured stringify none there = drop 1 there
write_structured stringify (some structured) there = drop 1 there ++ stringify structured ∷ []

module _ {D : Type 0} (stringify : D → String) (starts_with_http : String → Bool)
    (base_url location_href : String) where
  -- `setMeta(name, content)`, and `setMeta(name, content, true)`.
  abbrev named : String → String → Meta
  named name content = record { is_property = false; name = name; content = content }

  abbrev property : String → String → Meta
  property name content = record { is_property = true; name = name; content = content }

  image : String → String
  image og_image = if starts_with_http og_image then og_image else String.◌++◌ base_url og_image

  -- What the calls of `setMeta` write, in their order.
  tags : SeoProps D → List Meta
  unfolding image
  tags p =
      named "description" p.description
      ∷ named "robots" (if p.noindex then "noindex, nofollow" else "index, follow")
      ∷ property "og:title" (or_else p.title base_title)
      ∷ property "og:description" p.description
      ∷ property "og:type" p.og_type
      ∷ property "og:image" (image p.og_image)
      ∷ property "og:url" (or_else p.canonical location_href)
      ∷ property "og:site_name" base_title
      ∷ named "twitter:card" p.twitter_card
      ∷ named "twitter:title" (or_else p.title base_title)
      ∷ named "twitter:description" p.description
      ∷ named "twitter:image" (image p.og_image)
      ∷ []

  -- The effect, when any of the properties has changed.
  pub effect : SeoProps D → Head → Head
  unfolding tags full_title set_canonical write_structured
  effect p head = record {
    title = full_title p.title;
    metas = foldl (λ metas t. set_meta t.name t.content t.is_property metas) head.metas (tags p);
    links = set_canonical p.canonical head.links;
    structured = write_structured stringify p.structured_data head.structured;
  }

-- `document.querySelector('meta[…]')?.content`
pub content_of : (is_property : Bool) → String → List Meta → Option String
unfolding selects
content_of is_property name [] = none
content_of is_property name (m ∷ metas) =
    let found = content_of is_property name metas in
    if selects is_property name m then some m.content else found

-- `document.querySelector('link[rel="…"]')?.href`
pub href_of : String → List Link → Option String
href_of rel [] = none
href_of rel (l ∷ links) =
    let found = href_of rel links in if str_eq l.rel rel then some l.href else found
