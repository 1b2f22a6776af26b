-- ===== src/Wire/Injective.antt =====
-- Two numbers with the same bytes are the same: src/intents.ts.
use fermi_v1_sdk.Base.{
  String, ℕ, ◌≤◌, ◌<◌, ◌≡◌, refl, ap, sym, ◌∙◌, arith, ok, Number, whole, other, pos, negsuc,
  length,
}
use fermi_v1_sdk.Wire.{
  Bytes, BigNumberish, to_big_int, u8, u16_to_le, u64_to_le, le_bytes, le_value, unsigned_le,
}
use fermi_v1_sdk.Wire.RoundTrip.{
  length-le_bytes, le_value-le_bytes, room, u64_to_le-Wrote, le_value-u64,
}

-- A number that `unsigned_le` wrote.
pub record WroteSmall (k most : ℕ) (v : Number) (bs : Bytes) : Type 0 where
  pub n : ℕ
  pub value_eq : v ≡ whole (pos n)
  pub fits : n ≤ most
  pub bytes_eq : bs ≡ le_bytes k n

pub unsigned_le-WroteSmall :
    (k most : ℕ) (e : String) (v : Number) {bs : Bytes}
    → unsigned_le k most e v ≡ ok bs
    → WroteSmall k most v bs
unsigned_le-WroteSmall k most e (whole (pos n)) h = record {
  n = n;
  value_eq = refl;
  fits = ground arith;
  bytes_eq = ground arith;
}
unsigned_le-WroteSmall k most e (whole (negsuc n)) h = cc
unsigned_le-WroteSmall k most e (other t) h = cc

pub u8-WroteSmall : (v : Number) {bs : Bytes} → u8 v ≡ ok bs → WroteSmall 1 0xff v bs
unfolding u8
u8-WroteSmall v h = unsigned_le-WroteSmall 1 0xff _ v h

pub u16-WroteSmall : (v : Number) {bs : Bytes} → u16_to_le v ≡ ok bs → WroteSmall 2 0xffff v bs
unfolding u16_to_le
u16-WroteSmall v h = unsigned_le-WroteSmall 2 0xffff _ v h

WroteSmall-length : (k most : ℕ) (v : Number) (bs : Bytes) → WroteSmall k most v bs → length bs ≡ k
WroteSmall-length k most v bs w = ap length w.bytes_eq ∙ length-le_bytes k w.n

WroteSmall-injective :
    (k most : ℕ) (v w : Number) (bs : Bytes)
    → most < room k
    → WroteSmall k most v bs
    → WroteSmall k most w bs
    → v ≡ w
WroteSmall-injective k most v w bs room_enough x y =
    let ex = le_value-le_bytes k x.n (omega arith) in
    let ey = le_value-le_bytes k y.n (omega arith) in
    let same : x.n ≡ y.n = sym ex ∙ ap le_value (sym x.bytes_eq ∙ y.bytes_eq) ∙ ey in
    x.value_eq ∙ ap (λ n. whole (pos n)) same ∙ sym y.value_eq

pub length-u8 : (v : Number) {bs : Bytes} → u8 v ≡ ok bs → length bs ≡ 1
length-u8 v {bs} h = WroteSmall-length 1 0xff v bs (u8-WroteSmall v h)

pub length-u16 : (v : Number) {bs : Bytes} → u16_to_le v ≡ ok bs → length bs ≡ 2
length-u16 v {bs} h = WroteSmall-length 2 0xffff v bs (u16-WroteSmall v h)

pub length-u64 : (v : BigNumberish) {bs : Bytes} → u64_to_le v ≡ ok bs → length bs ≡ 8
length-u64 v h = let w = u64_to_le-Wrote v h in ap length w.bytes_eq ∙ length-le_bytes 8 w.n

pub u8_injective : (v w : Number) {bs : Bytes} → u8 v ≡ ok bs → u8 w ≡ ok bs → v ≡ w
u8_injective v w {bs} h k =
    WroteSmall-injective 1 0xff v w bs (omega arith) (u8-WroteSmall v h) (u8-WroteSmall w k)

pub u16_injective : (v w : Number) {bs : Bytes} → u16_to_le v ≡ ok bs → u16_to_le w ≡ ok bs → v ≡ w
u16_injective v w {bs} h k =
    WroteSmall-injective 2 0xffff v w bs (omega arith) (u16-WroteSmall v h) (u16-WroteSmall w k)

-- The same up to `bigint` and `number`: the two stand for one integer.
pub u64_injective :
    (v w : BigNumberish) {bs : Bytes}
    → u64_to_le v ≡ ok bs
    → u64_to_le w ≡ ok bs
    → to_big_int v ≡ to_big_int w
u64_injective v w h k =
    let x = u64_to_le-Wrote v h in
    let y = u64_to_le-Wrote w k in
    let same : x.n ≡ y.n =
      sym (le_value-u64 x.n x.fits)
      ∙ ap le_value (sym x.bytes_eq ∙ y.bytes_eq)
      ∙ le_value-u64 y.n y.fits in
    x.value_eq ∙ ap (λ n. ok (pos n)) same ∙ sym y.value_eq
