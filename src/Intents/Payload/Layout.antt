-- ===== src/Intents/Payload/Layout.antt =====
-- Where each field of a queue payload stands, and that a payload determines its fields.
use fermi_v1_sdk.Base.{
  ℕ, ◌≤◌, ◌≡◌, refl, ap, true, [], ◌∷◌, ◌++◌, ok, Number, whole, other, ℤ, pos, negsuc,
  if◌then◌else◌, length, get_elem?, some, from_bind, ok_injective, sym, ◌∙◌, arith,
}
use fermi_v1_sdk.Wire.{
  Bytes, to_big_int, u8, u16_to_le, u64_to_le, i64_to_le, le_bytes, i64_word, read_u64, u64_max,
  fits_i64,
}
use fermi_v1_sdk.Wire.RoundTrip.{
  u64_to_le-Wrote, i64_to_le-WroteSigned, le_value-u64, signed, signed-le_value,
}
use fermi_v1_sdk.Intents.{side_to_u8, order_type_to_u8, self_trade_behavior_to_u8}
use fermi_v1_sdk.Intents.Payload.{
  PlaceOrderFields, place_order_body, encode_queue_payload_v1, encode_perp_place_order_v2,
}
use fermi_v1_sdk.Intents.{perp_place_order_v2}

-- A byte that `u8` wrote.
pub u8_value :
    (v : Number) {bs : Bytes}
    → u8 v ≡ ok bs
    → (n : ℕ) × (v ≡ whole (pos n)) × (n ≤ 0xff) × (bs ≡ le_bytes 1 n)
unfolding u8
u8_value (whole (pos n)) h = (n, refl, ground arith, ground arith)
u8_value (whole (negsuc n)) h = cc
u8_value (other t) h = cc

pub u8_byte : (n : ℕ) {bs : Bytes} → n ≤ 0xff → u8 (whole (pos n)) ≡ ok bs → bs ≡ n ∷ []
unfolding u8 le_bytes
u8_byte n h e = ground arith

-- The 49 bytes of an order, from the numbers in it.
order_bytes : (side price base quote id type behavior reduce expiry limit : ℕ) → Bytes
unfolding le_bytes
order_bytes side price base quote id type behavior reduce expiry limit =
    1
    ∷ 0
    ∷ 0
    ∷ 0
    ∷ side
    ∷ (le_bytes 8 price
        ++ (le_bytes 8 base
            ++ (le_bytes 8 quote
                ++ (le_bytes 8 id
                    ++ (type ∷ behavior ∷ reduce ∷ (le_bytes 8 expiry ++ limit ∷ []))))))

-- The numbers that an encoded order holds, and what they stand for.
record Laid (fields : PlaceOrderFields) (payload : Bytes) : Type 0 where
  price : ℤ
  base : ℤ
  quote : ℤ
  id : ℕ
  expiry : ℕ
  limit : ℕ
  price_eq : to_big_int fields.price_lots ≡ ok price
  price_fits : fits_i64 price ≡ true
  base_eq : to_big_int fields.max_base_lots ≡ ok base
  base_fits : fits_i64 base ≡ true
  quote_eq : to_big_int fields.max_quote_lots ≡ ok quote
  quote_fits : fits_i64 quote ≡ true
  id_eq : to_big_int fields.client_order_id ≡ ok (pos id)
  id_fits : id ≤ u64_max
  expiry_eq : to_big_int fields.expiry_timestamp ≡ ok (pos expiry)
  expiry_fits : expiry ≤ u64_max
  limit_eq : fields.limit ≡ whole (pos limit)
  bytes_eq :
      payload
      ≡ order_bytes
          (side_to_u8 fields.side)
          (i64_word price)
          (i64_word base)
          (i64_word quote)
          id
          (order_type_to_u8 fields.order_type)
          (self_trade_behavior_to_u8 fields.self_trade_behavior)
          (if fields.reduce_only then 1 else 0)
          expiry
          limit

header :
    (body : Bytes) → encode_queue_payload_v1 perp_place_order_v2 body ≡ ok (1 ∷ 0 ∷ 0 ∷ 0 ∷ body)
unfolding encode_queue_payload_v1 u16_to_le le_bytes
header body = refl

assemble :
    (s p b q i t v r e l : ℕ)
    {side price base quote id type behavior reduce expiry limit body payload : Bytes}
    → side ≡ s ∷ []
    → price ≡ le_bytes 8 p
    → base ≡ le_bytes 8 b
    → quote ≡ le_bytes 8 q
    → id ≡ le_bytes 8 i
    → type ≡ t ∷ []
    → behavior ≡ v ∷ []
    → reduce ≡ r ∷ []
    → expiry ≡ le_bytes 8 e
    → limit ≡ l ∷ []
    → ok (
        side
        ++ (price
            ++ (base ++ (quote ++ (id ++ (type ++ (behavior ++ (reduce ++ (expiry ++ limit)))))))))
      ≡ ok body
    → encode_queue_payload_v1 perp_place_order_v2 body ≡ ok payload
    → payload ≡ order_bytes s p b q i t v r e l
unfolding order_bytes
assemble s p b q i t v r e l {body} {payload} hs hp hb hq hi ht hv hr he hl hbody hpay =
    let outer : payload ≡ 1 ∷ 0 ∷ 0 ∷ 0 ∷ body = sym (ok_injective (sym (header body) ∙ hpay)) in
    outer
    ∙ ap (λ x. 1 ∷ 0 ∷ 0 ∷ 0 ∷ x)
        (sym (ok_injective hbody) ∙ rw (hs, hp, hb, hq, hi, ht, hv, hr, he, hl) refl)

small_codes :
    (fields : PlaceOrderFields)
    → (side_to_u8 fields.side ≤ 0xff)
      × (order_type_to_u8 fields.order_type ≤ 0xff)
      × (self_trade_behavior_to_u8 fields.self_trade_behavior ≤ 0xff)
      × ((if fields.reduce_only then 1 else 0) ≤ 0xff)
small_codes fields = (ground arith, ground arith, ground arith, ground arith)

place_order-Laid :
    (fields : PlaceOrderFields) {payload : Bytes}
    → encode_perp_place_order_v2 fields ≡ ok payload
    → Laid fields payload
unfolding encode_perp_place_order_v2
place_order-Laid fields {payload} h = from_bind (place_order_body fields) _ h λ body eb kb.
    let (k0, k1, k2, k3) = small_codes fields in
    from_bind (u8 (whole (pos (side_to_u8 fields.side)))) _ eb λ side e0 c0.
      from_bind (i64_to_le fields.price_lots) _ c0 λ price e1 c1.
        from_bind (i64_to_le fields.max_base_lots) _ c1 λ base e2 c2.
          from_bind (i64_to_le fields.max_quote_lots) _ c2 λ quote e3 c3.
            from_bind (u64_to_le fields.client_order_id) _ c3 λ id e4 c4.
              from_bind (u8 (whole (pos (order_type_to_u8 fields.order_type)))) _ c4 λ type e5 c5.
                from_bind (u8 (whole (pos (self_trade_behavior_to_u8 fields.self_trade_behavior))))
                  _ c5
                  λ behavior e6 c6.
                    from_bind (u8 (whole (pos (if fields.reduce_only then 1 else 0)))) _ c6
                      λ reduce e7 c7.
                        from_bind (u64_to_le fields.expiry_timestamp) _ c7 λ expiry e8 c8.
                          from_bind (u8 fields.limit) _ c8 λ limit e9 c9.
                            let wp = i64_to_le-WroteSigned fields.price_lots e1 in
                            let wb = i64_to_le-WroteSigned fields.max_base_lots e2 in
                            let wq = i64_to_le-WroteSigned fields.max_quote_lots e3 in
                            let wi = u64_to_le-Wrote fields.client_order_id e4 in
                            let we = u64_to_le-Wrote fields.expiry_timestamp e8 in
                            let (l, el, fl, bl) = u8_value fields.limit e9 in
                            record {
                              price = wp.z;
                              base = wb.z;
                              quote = wq.z;
                              id = wi.n;
                              expiry = we.n;
                              limit = l;
                              price_eq = wp.value_eq;
                              price_fits = wp.fits;
                              base_eq = wb.value_eq;
                              base_fits = wb.fits;
                              quote_eq = wq.value_eq;
                              quote_fits = wq.fits;
                              id_eq = wi.value_eq;
                              id_fits = wi.fits;
                              expiry_eq = we.value_eq;
                              expiry_fits = we.fits;
                              limit_eq = el;
                              bytes_eq =
                                  assemble (side_to_u8 fields.side) (i64_word wp.z) (i64_word wb.z)
                                    (i64_word wq.z) wi.n (order_type_to_u8 fields.order_type)
                                    (self_trade_behavior_to_u8 fields.self_trade_behavior)
                                    (if fields.reduce_only then 1 else 0) we.n l (u8_byte _ k0 e0)
                                    wp.bytes_eq wb.bytes_eq wq.bytes_eq wi.bytes_eq
                                    (u8_byte _ k1 e5) (u8_byte _ k2 e6) (u8_byte _ k3 e7)
                                    we.bytes_eq (u8_byte l fl (rw el at e9)) c9 kb;
                            }

-- What a reader of the bytes at the fixed offsets finds.
pub record OrderLayout (fields : PlaceOrderFields) (payload : Bytes) : Type 0 where
  pub size : length payload ≡ 49
  pub version : get_elem? payload 0 ≡ some 1
  pub variant : get_elem? payload 1 ≡ some 0
  pub side : get_elem? payload 4 ≡ some (side_to_u8 fields.side)
  pub price : to_big_int fields.price_lots ≡ ok (signed (read_u64 payload 5))
  pub base : to_big_int fields.max_base_lots ≡ ok (signed (read_u64 payload 13))
  pub quote : to_big_int fields.max_quote_lots ≡ ok (signed (read_u64 payload 21))
  pub id : to_big_int fields.client_order_id ≡ ok (pos (read_u64 payload 29))
  pub type : get_elem? payload 37 ≡ some (order_type_to_u8 fields.order_type)
  pub behavior : get_elem? payload 38 ≡ some (self_trade_behavior_to_u8 fields.self_trade_behavior)
  pub reduce : get_elem? payload 39 ≡ some (if fields.reduce_only then 1 else 0)
  pub expiry : to_big_int fields.expiry_timestamp ≡ ok (pos (read_u64 payload 40))
  pub limit : (n : ℕ) × (fields.limit ≡ whole (pos n)) × (get_elem? payload 48 ≡ some n)

Laid-layout :
    (fields : PlaceOrderFields) {payload : Bytes} → Laid fields payload → OrderLayout fields payload
unfolding order_bytes
Laid-layout fields {payload} d = rw d.bytes_eq (record {
  size = refl;
  version = refl;
  variant = refl;
  side = refl;
  price = rw (signed-le_value d.price d.price_fits) d.price_eq;
  base = rw (signed-le_value d.base d.base_fits) d.base_eq;
  quote = rw (signed-le_value d.quote d.quote_fits) d.quote_eq;
  id = rw (le_value-u64 d.id d.id_fits) d.id_eq;
  type = refl;
  behavior = refl;
  reduce = refl;
  expiry = rw (le_value-u64 d.expiry d.expiry_fits) d.expiry_eq;
  limit = (d.limit, d.limit_eq, refl);
})

-- An encoded order is 49 bytes long, and holds each field at its fixed place: version 1 and variant
-- 0 first, the side at 4, the prices and sizes as signed words at 5, 13 and 21, the client order id
-- at 29, the type, the self-trade behaviour and the reduce-only flag at 37 to 39, the expiry at 40
-- and the limit at 48.
pub place_order-layout :
    (fields : PlaceOrderFields) {payload : Bytes}
    → encode_perp_place_order_v2 fields ≡ ok payload
    → OrderLayout fields payload
place_order-layout fields h = Laid-layout fields (place_order-Laid fields h)
