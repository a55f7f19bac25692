-- ===== src/Shell/Seo/Laws.antt =====
-- The head after one page, and after another one.
use cloudscale_commerce.Prelude.{
  ◌≡◌, refl, ap, sym, ◌∙◌, Bool, true, false, if◌then◌else◌, Option, none, some, List, [], ◌∷◌,
  foldl, any, length, ◌≤◌, drop, String, str_eq, eq_iff, eq_refl, arith,
}
use cloudscale_commerce.Pages.Answers.{or_else}
use cloudscale_commerce.Shell.Seo.{
  SeoProps, Meta, Link, Head, selects, set_meta, set_link, given, set_canonical, tags,
  write_structured, effect, content_of, href_of,
}

-- The element that the second selector would find is the one that the first would.
first_some : Option String → Option String → Option String
first_some none later = later
first_some (some text) later = some text

first_some-if :
    (last : Option String) (now : Bool) (text : String) (before : Option String)
    → first_some last (if now then some text else before)
      ≡ first_some (first_some last (if now then some text else none)) before
unfolding first_some
first_some-if none now text before = ground arith
first_some-if (some t) now text before = refl

content_of-set_meta :
    (p q : Bool) (n m content : String) (metas : List Meta)
    → content_of p n (set_meta m content q metas) ≡ (
        if selects p n (record { is_property = q; name = m; content = content })
        then some content
        else content_of p n metas)
unfolding content_of set_meta selects
content_of-set_meta true true n m content [] = ground arith
content_of-set_meta true false n m content [] = ground arith
content_of-set_meta false true n m content [] = ground arith
content_of-set_meta false false n m content [] = ground arith
content_of-set_meta true true n m content (x ∷ metas) = ground (
  arith,
  content_of-set_meta true true n m content metas,
  eq_iff x.name m,
  eq_iff x.name n,
  eq_iff m n,
)
content_of-set_meta true false n m content (x ∷ metas) = ground (
  arith,
  content_of-set_meta true false n m content metas,
  eq_iff x.name m,
  eq_iff x.name n,
  eq_iff m n,
)
content_of-set_meta false true n m content (x ∷ metas) = ground (
  arith,
  content_of-set_meta false true n m content metas,
  eq_iff x.name m,
  eq_iff x.name n,
  eq_iff m n,
)
content_of-set_meta false false n m content (x ∷ metas) = ground (
  arith,
  content_of-set_meta false false n m content metas,
  eq_iff x.name m,
  eq_iff x.name n,
  eq_iff m n,
)

-- The calls of `setMeta`, one after the other.
write_all : List Meta → List Meta → List Meta
write_all tags metas = foldl (λ metas t. set_meta t.name t.content t.is_property metas) metas tags

-- What the last of the calls for an element writes.
written : Bool → String → List Meta → Option String
written p n [] = none
written p n (t ∷ tags) =
    let last = written p n tags in first_some last (if selects p n t then some t.content else none)

content_of-write_all :
    (p : Bool) (n : String) (tags metas : List Meta)
    → content_of p n (write_all tags metas) ≡ first_some (written p n tags) (content_of p n metas)
unfolding write_all written first_some
content_of-write_all p n [] metas = refl
content_of-write_all p n (t ∷ tags) metas =
    content_of-write_all p n tags (set_meta t.name t.content t.is_property metas)
    ∙ rw (content_of-set_meta p t.is_property n t.name t.content metas)
        (first_some-if (written p n tags) (selects p n t) t.content (content_of p n metas))

-- Whether the calls write an element depends on the selectors only.
is_written : Bool → String → List Meta → Bool
is_written p n tags = any (λ t. selects p n t) tags

is_some : Option String → Bool
is_some none = false
is_some (some text) = true

is_some-written :
    (p : Bool) (n : String) (tags : List Meta) → is_some (written p n tags) ≡ is_written p n tags
unfolding is_some written is_written first_some
is_some-written p n [] = refl
is_some-written p n (t ∷ tags) = ground (arith, is_some-written p n tags)

first_some_twice :
    (a b c : Option String) → is_some a ≡ is_some b → first_some b (first_some a c) ≡ first_some b c
unfolding is_some first_some
first_some_twice a (some text) c same = refl
first_some_twice none none c same = refl
first_some_twice (some text) none c same = cc

length-drop_one : (texts : List String) → length texts ≤ 1 → drop 1 texts ≡ []
length-drop_one [] few = refl
length-drop_one (x ∷ []) few = refl
length-drop_one (x ∷ y ∷ texts) few = absurd (omega arith)

write_all-write_all :
    (p : Bool) (n : String) (these those metas : List Meta)
    → is_written p n these ≡ is_written p n those
    → content_of p n (write_all those (write_all these metas))
      ≡ content_of p n (write_all those metas)
write_all-write_all p n these those metas same =
    rw
      (
        content_of-write_all p n those (write_all these metas),
        content_of-write_all p n these metas,
        content_of-write_all p n those metas,
      )
      (first_some_twice (written p n these) (written p n those) (content_of p n metas)
        (is_some-written p n these ∙ same ∙ sym (is_some-written p n those)))

or_else_lacking :
    (text : Option String) (usual : String) → given text ≡ false → or_else text usual ≡ usual
unfolding given or_else
or_else_lacking none usual lacks = refl
or_else_lacking (some text) usual lacks = ground arith

href_of-set_link :
    (rel href : String) (links : List Link) → href_of rel (set_link rel href links) ≡ some href
unfolding href_of set_link
href_of-set_link rel href [] = ground (arith, eq_refl rel)
href_of-set_link rel href (l ∷ links) = ground (arith, href_of-set_link rel href links)

set_canonical_lacking :
    (text : Option String) (links : List Link)
    → given text ≡ false
    → set_canonical text links ≡ links
unfolding given set_canonical
set_canonical_lacking none links lacks = refl
set_canonical_lacking (some text) links lacks = ground arith

href_of-set_canonical :
    (text : Option String) (address : String) (links : List Link)
    → text ≡ some address
    → given text ≡ true
    → href_of "canonical" (set_canonical text links) ≡ some address
unfolding given set_canonical
href_of-set_canonical none address links has real = cc
href_of-set_canonical (some text) address links has real =
    let full : str_eq text "" ≡ false = ground arith in
    rw full (href_of-set_link "canonical" text links ∙ has)

module _ {D : Type 0} (stringify : D → String) where
  write_structured-write_structured :
      (a b : Option D) (there : List String)
      → length there ≤ 1
      → write_structured stringify b (write_structured stringify a there)
        ≡ write_structured stringify b there
  unfolding write_structured
  write_structured-write_structured none none there few = rw (length-drop_one there few) refl
  write_structured-write_structured none (some y) there few = rw (length-drop_one there few) refl
  write_structured-write_structured (some x) none there few = rw (length-drop_one there few) refl
  write_structured-write_structured (some x) (some y) there few =
      rw (length-drop_one there few) refl

module _ {D : Type 0} (stringify : D → String) (starts_with_http : String → Bool)
    (base_url : String) where
  is_written-tags :
      (p : Bool) (n : String) (here there : String) (a b : SeoProps D)
      → is_written p n (tags stringify starts_with_http base_url here a)
        ≡ is_written p n (tags stringify starts_with_http base_url there b)
  unfolding is_written tags selects
  is_written-tags true n here there a b = refl
  is_written-tags false n here there a b = refl

  -- The head has at most one element with structured data. After a page and then another one, the
  -- title, the content of every `meta` element and the structured data are what the second page alone
  -- would have left.
  pub effect-effect :
      (here there : String) (a b : SeoProps D) (head : Head) (p : Bool) (n : String)
      → length head.structured ≤ 1
      → let both =
          effect stringify starts_with_http base_url there b
            (effect stringify starts_with_http base_url here a head) in
        let alone = effect stringify starts_with_http base_url there b head in
        (both.title ≡ alone.title)
        × (content_of p n both.metas ≡ content_of p n alone.metas)
        × (both.structured ≡ alone.structured)
  unfolding effect write_all
  effect-effect here there a b head p n few =
      let tags_at = tags stringify starts_with_http base_url in
      (
        refl,
        write_all-write_all p n (tags_at here a) (tags_at there b) head.metas
            (is_written-tags p n here there a b),
        write_structured-write_structured stringify a.structured_data b.structured_data
            head.structured few,
      )

  -- The link to the canonical address is written only where the page has one: behind a page with an
  -- address that is not empty, a page without one leaves the link to the first, and the address of the
  -- preview is the second page's own.
  pub effect-canonical :
      (here there : String) (a b : SeoProps D) (head : Head) (address : String)
      → a.canonical ≡ some address
      → given a.canonical ≡ true
      → given b.canonical ≡ false
      → let both =
          effect stringify starts_with_http base_url there b
            (effect stringify starts_with_http base_url here a head) in
        (href_of "canonical" both.links ≡ some address)
        × (content_of true "og:url" both.metas ≡ some there)
  unfolding effect first_some written selects set_meta write_all
  effect-canonical here there a b head address has real lacks =
      let tags_at = tags stringify starts_with_http base_url in
      let before = effect stringify starts_with_http base_url here a head in
      (
        rw (set_canonical_lacking b.canonical before.links lacks)
            (href_of-set_canonical a.canonical address head.links has real),
        content_of-write_all true "og:url" (tags_at there b) before.metas
            ∙ ap some (or_else_lacking b.canonical there lacks),
      )
