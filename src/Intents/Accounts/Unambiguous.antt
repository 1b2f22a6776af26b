-- ===== src/Intents/Accounts/Unambiguous.antt =====
-- The bytes that are hashed for an account list determine the list: src/intents.ts.
use fermi_v1_sdk.Base.{
  Bool, ◌≡◌, refl, ap, ap₂, arith, List, [], ◌∷◌, length, length-append, append_cancel, cons_parts,
  sym, ◌∙◌,
}
use fermi_v1_sdk.Platform.{Platform}
use fermi_v1_sdk.Intents.Accounts.{AccountMeta, flag_byte, accounts_bytes}

flag_byte_injective : (a b : Bool) → flag_byte a ≡ flag_byte b → a ≡ b
flag_byte_injective a b h = ground arith

module _ (W : Platform) where
  open W use {PublicKey, to_bytes, length-to_bytes, to_bytes_injective}

  meta_eq :
      (a b : AccountMeta PublicKey)
      → a.pubkey ≡ b.pubkey
      → a.is_signer ≡ b.is_signer
      → a.is_writable ≡ b.is_writable
      → a ≡ b
  meta_eq a b p q r = λ i. record { pubkey = p i; is_signer = q i; is_writable = r i }

  -- Two account lists with the same bytes are the same list, in the same order, with the same flags:
  -- no two lists share a hash but by a collision of SHA-256 itself.
  pub accounts_bytes_injective :
      (xs ys : List (AccountMeta PublicKey)) → accounts_bytes W xs ≡ accounts_bytes W ys → xs ≡ ys
  unfolding accounts_bytes
  accounts_bytes_injective [] [] h = refl
  accounts_bytes_injective [] (y ∷ ys) h = absurd (
      omega (
        arith,
        ap length h,
        length-append {0} (to_bytes y.pubkey)
            (flag_byte y.is_signer ∷ flag_byte y.is_writable ∷ accounts_bytes W ys),
      ))
  accounts_bytes_injective (x ∷ xs) [] h = absurd (
      omega (
        arith,
        ap length h,
        length-append {0} (to_bytes x.pubkey)
            (flag_byte x.is_signer ∷ flag_byte x.is_writable ∷ accounts_bytes W xs),
      ))
  accounts_bytes_injective (x ∷ xs) (y ∷ ys) h =
      let (hk, hr) =
        append_cancel (to_bytes x.pubkey) (to_bytes y.pubkey)
          (length-to_bytes x.pubkey ∙ sym (length-to_bytes y.pubkey)) h in
      let (hs, hw) = cons_parts hr in
      let (hv, ht) = cons_parts hw in
      ap₂ ◌∷◌
        (meta_eq x y (to_bytes_injective x.pubkey y.pubkey hk)
          (flag_byte_injective x.is_signer y.is_signer hs)
          (flag_byte_injective x.is_writable y.is_writable hv))
        (accounts_bytes_injective xs ys ht)
