-- ===== src/Cart/Invariant.antt =====
-- The cart over any sequence of calls from the initial state of `create`.
use cloudscale_commerce.Prelude.{
  ◌≡◌, refl, sym, ◌∙◌, Bool, false, not, Bool-cases, inl, inr, ◌⊎◌, ◌≢◌, none, some, List, [], ◌∷◌,
  ◌++◌, map, foldl, filter, find, All, All-append, All-filter, String, str_eq, eq_iff, arith,
}
use cloudscale_commerce.Number.{Number, IsRounding, nought, one}
use cloudscale_commerce.Cart.{
  CartItem, NewItem, CartState, has_id, is_some, with_quantity, bump, set_quantity, initial,
  add_item, remove_item, update_quantity, apply_coupon, clear_cart,
}

-- A call of one of the store's operations.
pub data Action (N : Type 0) : Type 0 where
  add : NewItem N → Action N
  remove : String → Action N
  update : String → N → Action N
  coupon : String → Action N
  clear : Action N

module _ {N : Type 0} where
  abbrev Differs : String → List (CartItem N) → Type 0
  Differs id = All (λ item. item.product_id ≢ id)

  -- No two lines are of one product.
  abbrev pub IsDistinct : List (CartItem N) → Type 0
  IsDistinct [] = Unit
  IsDistinct (item ∷ items) = Differs item.product_id items × IsDistinct items

  Differs-of_absent :
      (id : String) (items : List (CartItem N))
      → is_some (find (has_id id) items) ≡ false
      → Differs id items
  unfolding is_some has_id
  Differs-of_absent id [] h = tt
  Differs-of_absent id (x ∷ items) h =
      ground (arith, Differs-of_absent id items, eq_iff x.product_id id)

  IsDistinct-append :
      (items : List (CartItem N)) (last : CartItem N)
      → IsDistinct items
      → Differs last.product_id items
      → IsDistinct (items ++ last ∷ [])
  IsDistinct-append [] last d h = (tt, tt)
  IsDistinct-append (x ∷ items) last (dx, d) (hx, h) = (
    All-append (λ item. item.product_id ≢ x.product_id) items (last ∷ []) dx
        ((λ e. hx (sym e)), tt),
    IsDistinct-append items last d h,
  )

  IsDistinct-filter :
      (p : CartItem N → Bool) (items : List (CartItem N))
      → IsDistinct items
      → IsDistinct (filter p items)
  IsDistinct-filter p [] d = tt
  IsDistinct-filter p (x ∷ items) (dx, d) = ground (
    arith,
    IsDistinct-filter p items d,
    All-filter (λ item. item.product_id ≢ x.product_id) p items dx,
  )

  module _ (f : CartItem N → CartItem N)
      (same : (x : CartItem N) → (f x).product_id ≡ x.product_id) where
    Differs-map :
        (id : String) (items : List (CartItem N)) → Differs id items → Differs id (map f items)
    Differs-map id [] h = tt
    Differs-map id (x ∷ items) (hx, h) = ((λ e. hx (sym (same x) ∙ e)), Differs-map id items h)

    IsDistinct-map : (items : List (CartItem N)) → IsDistinct items → IsDistinct (map f items)
    IsDistinct-map [] d = tt
    IsDistinct-map (x ∷ items) (dx, d) =
        (rw (same x) (Differs-map x.product_id items dx), IsDistinct-map items d)

module _ {N : Type 0} ⦃num : Number N⦄ where
  open num use {decimal, le}

  abbrev pub IsStocked : CartItem N → Type 0
  IsStocked item = le item.quantity nought ≡ false

  Stocked-map :
      (f : CartItem N → CartItem N)
      → ((x : CartItem N) → IsStocked x → IsStocked (f x))
      → (items : List (CartItem N)) → All IsStocked items
      → All IsStocked (map f items)
  Stocked-map f keeps [] h = tt
  Stocked-map f keeps (x ∷ items) (hx, h) = (keeps x hx, Stocked-map f keeps items h)

  module _ (to_upper : String → String) where
    -- Either no coupon and no discount, or a code that is CLOUDSCALE10 in capitals, and a tenth off.
    abbrev pub IsCoupon : CartState N → Type 0
    IsCoupon s =
        (s.coupon_code ≡ none) × (s.discount_value ≡ nought)
        ⊎ ((code : String) × (s.coupon_code ≡ some code)
            × (to_upper code ≡ "CLOUDSCALE10")
            × (s.discount_value ≡ decimal 1 1))

    pub record IsValid (s : CartState N) : Type 0 where
      pub distinct : IsDistinct s.items
      pub stocked : All IsStocked s.items
      pub coupon : IsCoupon s
      pub shipping : s.shipping_cost ≡ decimal 999 2
      pub tax : s.tax_rate ≡ decimal 8 2

    unfoldable pub step : CartState N → Action N → CartState N
    step s (add new) = add_item new s
    step s (remove id) = remove_item id s
    step s (update id quantity) = update_quantity id quantity s
    step s (coupon code) = apply_coupon to_upper code s
    step s clear = clear_cart s

    pub initial-IsValid : IsValid initial
    unfolding initial
    initial-IsValid = record {
      distinct = tt;
      stocked = tt;
      coupon = inl (refl, refl);
      shipping = refl;
      tax = refl;
    }

    add_item-IsValid :
        IsRounding N → (new : NewItem N) (s : CartState N) → IsValid s → IsValid (add_item new s)
    unfolding add_item
    add_item-IsValid laws new s v =
        elim (Bool-cases (is_some (find (has_id new.product_id) s.items))) [
          | inl old ↦ rw (old) (record {
            distinct = IsDistinct-map (bump new.product_id) (λ x. ground arith) s.items v.distinct;
            stocked =
                Stocked-map (bump new.product_id)
                  (λ x h. ground (arith, laws.add_one_pos x.quantity h)) s.items v.stocked;
            coupon = v.coupon;
            shipping = v.shipping;
            tax = v.tax;
          })
          | inr fresh ↦ rw (fresh) (record {
            distinct =
                IsDistinct-append s.items (with_quantity new one) v.distinct
                  (Differs-of_absent new.product_id s.items fresh);
            stocked =
                All-append IsStocked s.items (with_quantity new one ∷ []) v.stocked
                  (laws.one_pos, tt);
            coupon = v.coupon;
            shipping = v.shipping;
            tax = v.tax;
          })
        ]

    remove_item-IsValid : (id : String) (s : CartState N) → IsValid s → IsValid (remove_item id s)
    unfolding remove_item
    remove_item-IsValid id s v = record {
      distinct = IsDistinct-filter (λ item. not (has_id id item)) s.items v.distinct;
      stocked = All-filter IsStocked (λ item. not (has_id id item)) s.items v.stocked;
      coupon = v.coupon;
      shipping = v.shipping;
      tax = v.tax;
    }

    update_quantity-IsValid :
        (id : String) (quantity : N) (s : CartState N)
        → IsValid s
        → IsValid (update_quantity id quantity s)
    unfolding update_quantity
    update_quantity-IsValid id quantity s v = elim (Bool-cases (le quantity nought)) [
      | inl gone ↦ rw (gone) (remove_item-IsValid id s v)
      | inr kept ↦ rw (kept) (record {
        distinct = IsDistinct-map (set_quantity id quantity) (λ x. ground arith) s.items v.distinct;
        stocked = Stocked-map (set_quantity id quantity) (λ x h. ground arith) s.items v.stocked;
        coupon = v.coupon;
        shipping = v.shipping;
        tax = v.tax;
      })
    ]

    apply_coupon-IsValid :
        (code : String) (s : CartState N) → IsValid s → IsValid (apply_coupon to_upper code s)
    unfolding apply_coupon
    apply_coupon-IsValid code s v = elim (Bool-cases (str_eq (to_upper code) "CLOUDSCALE10")) [
      | inl real ↦ rw (real) (record {
        distinct = v.distinct;
        stocked = v.stocked;
        coupon = inr (code, refl, (eq_iff (to_upper code) "CLOUDSCALE10").0 real, refl);
        shipping = v.shipping;
        tax = v.tax;
      })
      | inr fake ↦ rw (fake) (record {
        distinct = v.distinct;
        stocked = v.stocked;
        coupon = inl (refl, refl);
        shipping = v.shipping;
        tax = v.tax;
      })
    ]

    pub step-IsValid :
        IsRounding N → (s : CartState N) (a : Action N) → IsValid s → IsValid (step s a)
    unfolding step clear_cart
    step-IsValid laws s (add new) v = add_item-IsValid laws new s v
    step-IsValid laws s (remove id) v = remove_item-IsValid id s v
    step-IsValid laws s (update id quantity) v = update_quantity-IsValid id quantity s v
    step-IsValid laws s (coupon code) v = apply_coupon-IsValid code s v
    step-IsValid laws s clear v = record {
      distinct = tt;
      stocked = tt;
      coupon = inl (refl, refl);
      shipping = v.shipping;
      tax = v.tax;
    }

    foldl-IsValid :
        IsRounding N
        → (s : CartState N) (calls : List (Action N)) → IsValid s
        → IsValid (foldl step s calls)
    foldl-IsValid laws s [] v = v
    foldl-IsValid laws s (a ∷ calls) v =
        foldl-IsValid laws (step s a) calls (step-IsValid laws s a v)

    -- After any calls on a new cart no product has two lines, no quantity is zero or less, and the
    -- discount is a tenth exactly where the code kept is CLOUDSCALE10 in capitals, else nought.
    pub run-IsValid : IsRounding N → (calls : List (Action N)) → IsValid (foldl step initial calls)
    run-IsValid laws calls = foldl-IsValid laws initial calls initial-IsValid
