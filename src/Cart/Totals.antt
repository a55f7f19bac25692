-- ===== src/Cart/Totals.antt =====
-- The amounts of `getCartTotals`.
use cloudscale_commerce.Prelude.{
  ◌≡◌, refl, true, false, Bool-cases, inl, inr, ◌⊎◌, Option, none, some, List, [], ◌∷◌, foldl, All,
  String, str_eq, arith,
}
use cloudscale_commerce.Number.{Number, IsRounding, IsAmount, IsRate, ◌≼◌, nought}
use cloudscale_commerce.Cart.{
  CartItem, CartState, add_line, raw_subtotal, apply_coupon, get_cart_totals,
}

module _ {N : Type 0} ⦃num : Number N⦄ where
  open num use {decimal, add, sub, mul, le, lt, to_fixed2}

  -- A price and a quantity that are finite and not negative.
  abbrev pub IsPriced : CartItem N → Type 0
  IsPriced item = IsAmount item.price × IsAmount item.quantity

  -- What the bounds need of a cart: priced lines, a subtotal that does not overflow, rates from 0
  -- to 1, and a shipping cost that is not negative.
  pub record IsBilled (s : CartState N) : Type 0 where
    pub priced : All IsPriced s.items
    pub finite : raw_subtotal s.items ≼ num.max_value
    pub tax_rate : IsRate s.tax_rate
    pub discount_value : IsRate s.discount_value
    pub shipping : nought ≼ s.shipping_cost

  module _ (laws : IsRounding N) where
    open laws use {
      le_refl, le_trans, decimal_mono, add_nonneg, le_add, le_add_left, add_mono, mul_nonneg,
      mul_rate, mul_mono, mul_rate_mono, sub_amount, sub_mono, fixed_mono,
    }

    foldl-add_line-nonneg :
        (acc : N) (items : List (CartItem N))
        → nought ≼ acc
        → All IsPriced items
        → nought ≼ foldl add_line acc items
    foldl-add_line-nonneg acc [] h p = h
    foldl-add_line-nonneg acc (x ∷ items) h (px, p) =
        foldl-add_line-nonneg (add_line acc x) items
          (add_nonneg acc (mul x.price x.quantity) h (mul_nonneg x.price x.quantity px.0 px.1)) p

    raw_subtotal-IsAmount : (s : CartState N) → IsBilled s → IsAmount (raw_subtotal s.items)
    unfolding raw_subtotal
    raw_subtotal-IsAmount s b = (
      foldl-add_line-nonneg nought s.items (decimal_mono 0 0 0 0 (omega arith)) b.priced,
      b.finite,
    )

    -- The amounts before rounding, and how they lie.
    record Billed (r t subtotal : N) : Type 0 where
      discount_amount : IsAmount (mul subtotal r)
      discount_le : mul subtotal r ≼ subtotal
      taxable_amount : IsAmount (sub subtotal (mul subtotal r))
      tax_amount : IsAmount (mul (sub subtotal (mul subtotal r)) t)
      tax_le : mul (sub subtotal (mul subtotal r)) t ≼ subtotal

    billed : (r t subtotal : N) → IsAmount subtotal → IsRate r → IsRate t → Billed r t subtotal
    billed r t subtotal sa ra ta =
        let (da, dle) = mul_rate subtotal r sa ra in
        let (xa, xle) = sub_amount subtotal (mul subtotal r) sa da dle in
        let (ya, yle) = mul_rate (sub subtotal (mul subtotal r)) t xa ta in
        record {
          discount_amount = da;
          discount_le = dle;
          taxable_amount = xa;
          tax_amount = ya;
          tax_le = le_trans _ _ _ yle xle;
        }

    zero_le : nought {N = N} ≼ nought
    zero_le = decimal_mono 0 0 0 0 (omega arith)

    -- For a billed cart, the discount and the tax lie between nought and the subtotal. The total is at least the
    -- shipping cost if the subtotal is more than nought, and nought if it is not.
    pub get_cart_totals_bounds :
        (s : CartState N)
        → IsBilled s
        → let totals = get_cart_totals s in
          (to_fixed2 nought ≼ totals.discount)
          × (totals.discount ≼ totals.subtotal)
          × (to_fixed2 nought ≼ totals.tax)
          × (totals.tax ≼ totals.subtotal)
          × ((lt nought (raw_subtotal s.items) ≡ true) × (to_fixed2 s.shipping_cost ≼ totals.total)
              ⊎ (lt nought (raw_subtotal s.items) ≡ false) × (totals.total ≡ to_fixed2 nought))
    unfolding get_cart_totals
    get_cart_totals_bounds s b = (
      fixed_mono _ _ zero_le bill.discount_amount.0,
      fixed_mono _ _ bill.discount_amount.0 bill.discount_le,
      fixed_mono _ _ zero_le bill.tax_amount.0,
      fixed_mono _ _ bill.tax_amount.0 bill.tax_le,
      elim (Bool-cases (lt nought subtotal)) [
        | inl paid ↦ inl (
          paid,
          rw paid (
              fixed_mono _ _ b.shipping (
                le_add_left _ _ (add_nonneg _ _ bill.taxable_amount.0 bill.tax_amount.0)
                  b.shipping)),
        )
        | inr free ↦ inr (free, rw free refl)
      ],
    )
      where
        subtotal : N
        subtotal = raw_subtotal s.items

        bill : Billed s.discount_value s.tax_rate subtotal
        bill =
            billed s.discount_value s.tax_rate subtotal (raw_subtotal-IsAmount s b) b.discount_value
              b.tax_rate

    -- A larger discount rate never makes the total larger, and leaves the subtotal alone.
    total_antitone :
        (s : CartState N) (r : N)
        → IsBilled s
        → IsRate r
        → s.discount_value ≼ r
        → let lower = get_cart_totals (record s { discount_value = r }) in
          (lower.total ≼ (get_cart_totals s).total)
          × (lower.subtotal ≡ (get_cart_totals s).subtotal)
    unfolding get_cart_totals
    total_antitone s r b ra le_r = (
      elim (Bool-cases (lt nought subtotal)) [
        | inl paid ↦ rw paid (
            fixed_mono _ _
              (add_nonneg _ _ (add_nonneg _ _ more.taxable_amount.0 more.tax_amount.0) b.shipping)
              (add_mono _ _ _ _ (add_nonneg _ _ more.taxable_amount.0 more.tax_amount.0) b.shipping
                (add_mono _ _ _ _ more.taxable_amount.0 more.tax_amount.0 taxable_le
                  (mul_mono _ _ _ more.taxable_amount bill.taxable_amount b.tax_rate taxable_le))
                (le_refl _ b.shipping)))
        | inr free ↦ rw free (fixed_mono _ _ zero_le zero_le)
      ],
      refl,
    )
      where
        subtotal : N
        subtotal = raw_subtotal s.items

        bill : Billed s.discount_value s.tax_rate subtotal
        bill =
            billed s.discount_value s.tax_rate subtotal (raw_subtotal-IsAmount s b) b.discount_value
              b.tax_rate

        more : Billed r s.tax_rate subtotal
        more = billed r s.tax_rate subtotal (raw_subtotal-IsAmount s b) ra b.tax_rate

        taxable_le : sub subtotal (mul subtotal r) ≼ sub subtotal (mul subtotal s.discount_value)
        taxable_le =
            sub_mono _ _ _ (raw_subtotal-IsAmount s b) bill.discount_amount more.discount_amount
              (mul_rate_mono _ _ _ (raw_subtotal-IsAmount s b) b.discount_value ra le_r)

    -- For a billed cart, a code that is CLOUDSCALE10 in capitals never makes the total larger than
    -- any other code that is applied does, and leaves the subtotal alone.
    pub apply_coupon_never_dearer :
        (to_upper : String → String) (code other : String) (s : CartState N)
        → IsBilled s
        → str_eq (to_upper code) "CLOUDSCALE10" ≡ true
        → let cheaper = get_cart_totals (apply_coupon to_upper code s) in
          let usual = get_cart_totals (apply_coupon to_upper other s) in
          (cheaper.total ≼ usual.total) × (cheaper.subtotal ≡ usual.subtotal)
    unfolding apply_coupon get_cart_totals
    apply_coupon_never_dearer to_upper code other s b real =
        rw real (elim (Bool-cases (str_eq (to_upper other) "CLOUDSCALE10")) [
          | inl alike ↦ rw alike (from_rate (some other) (decimal 1 1) tenth (le_refl _ tenth.0))
          | inr unlike ↦
              rw unlike
                (from_rate none nought (zero_le, decimal_mono 0 0 1 0 (omega arith)) tenth.0)
        ])
      where
        tenth : IsRate (decimal 1 1)
        tenth = (decimal_mono 0 0 1 1 (omega arith), decimal_mono 1 1 1 0 (omega arith))

        from_rate :
            (coupon : Option String) (r : N)
            → IsRate r
            → r ≼ decimal 1 1
            → let usual = record s { coupon_code = coupon; discount_value = r } in
              let cheaper = record s { coupon_code = some code; discount_value = decimal 1 1 } in
              ((get_cart_totals cheaper).total ≼ (get_cart_totals usual).total)
              × ((get_cart_totals cheaper).subtotal ≡ (get_cart_totals usual).subtotal)
        from_rate coupon r rate le =
            total_antitone (record s { coupon_code = coupon; discount_value = r }) (decimal 1 1)
              (record {
                priced = b.priced;
                finite = b.finite;
                tax_rate = b.tax_rate;
                discount_value = rate;
                shipping = b.shipping;
              })
              tenth le
