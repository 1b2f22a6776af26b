-- ===== src/Context/Fallbacks.antt =====
-- The fallback oracles among the health accounts of src/context.ts.
use fermi_v1_sdk.Base.{
  ◌≡◌, ◌≢◌, ◌⊎◌, inl, inr, refl, arith, Bool, true, false, ◌||◌, List, [], ◌∷◌, map, All, any,
  text_eq, text_eq→eq, text_eq_refl, Bool-cases,
}
use fermi_v1_sdk.Platform.{Platform}
use fermi_v1_sdk.Context.{new_fallbacks}

abbrev pub Member : {A : Type 0} → A → List A → Type 0
Member a [] = ⊥
Member a (x ∷ xs) = (x ≡ a) ⊎ Member a xs

pub All-mono {ℓ κ μ} :
    {A : Type ℓ} (P : A → Type κ) (Q : A → Type μ) (xs : List A)
    → ((a : A) → P a → Q a)
    → All P xs
    → All Q xs
All-mono P Q [] f h = tt
All-mono P Q (x ∷ xs) f (p, h) = (f x p, All-mono P Q xs f h)

pub or_false : (a b : Bool) → (a || b) ≡ false → (a ≡ false) × (b ≡ false)
or_false a b h = (ground arith, ground arith)

pub or_true : (a b : Bool) → (a || b) ≡ true → (a ≡ true) ⊎ (b ≡ true)
or_true true b h = inl refl
or_true false b h = inr h

module _ (W : Platform) where
  open W use {PublicKey, equals, equals_iff, to_base58, to_base58_injective, default_key}

  -- Each key is not the default one, not a known one, and not an earlier one of the list.
  abbrev pub Fresh : List PublicKey → List PublicKey → Type 0
  Fresh known [] = Unit
  Fresh known (k ∷ ks) = (k ≢ default_key) × All (λ x. x ≢ k) known × Fresh (k ∷ known) ks

  -- What the loop keeps of the fallbacks, when it has seen the keys `known`.
  pub record Kept (known fallbacks out : List PublicKey) : Type 0 where
    pub fresh : Fresh known out
    pub given : All (λ k. Member k fallbacks) out
    pub complete : All (λ k. (k ≡ default_key) ⊎ (Member k known ⊎ Member k out)) fallbacks

  not_seen :
      (k : PublicKey) (known : List PublicKey)
      → any (λ t. text_eq t (to_base58 k)) (map to_base58 known) ≡ false
      → All (λ x. x ≢ k) known
  not_seen k [] h = tt
  not_seen k (x ∷ known) h =
      let (off, more) = or_false (text_eq (to_base58 x) (to_base58 k)) _ h in
      (
        λ e.
            let same : text_eq (to_base58 x) (to_base58 k) ≡ true =
              rw e (text_eq_refl (to_base58 k)) in
            cc,
        not_seen k known more,
      )

  seen-Member :
      (k : PublicKey) (known : List PublicKey)
      → any (λ t. text_eq t (to_base58 k)) (map to_base58 known) ≡ true
      → Member k known
  seen-Member k [] h = cc
  seen-Member k (x ∷ known) h = elim (or_true (text_eq (to_base58 x) (to_base58 k)) _ h) [
    | inl same ↦ inl (to_base58_injective x k (text_eq→eq _ _ same))
    | inr more ↦ inr (seen-Member k known more)
  ]

  skipped-Kept :
      (known fs out : List PublicKey) (f : PublicKey)
      → ((f ≡ default_key) ⊎ Member f known)
      → Kept known fs out
      → Kept known (f ∷ fs) out
  skipped-Kept known fs out f why k = record {
    fresh = k.fresh;
    given = All-mono _ (λ x. Member x (f ∷ fs)) out (λ x m. inr m) k.given;
    complete = (elim why [ inl d ↦ inl d | inr m ↦ inr (inl m) ], k.complete);
  }

  taken-Kept :
      (known fs out : List PublicKey) (f : PublicKey)
      → f ≢ default_key
      → All (λ x. x ≢ f) known
      → Kept (f ∷ known) fs out
      → Kept known (f ∷ fs) (f ∷ out)
  taken-Kept known fs out f off absent k = record {
    fresh = (off, absent, k.fresh);
    given = (inl refl, All-mono _ (λ x. Member x (f ∷ fs)) out (λ x m. inr m) k.given);
    complete = (inr (inr (inl refl)), All-mono _ _ fs regroup k.complete);
  }
    where
      regroup :
          (x : PublicKey)
          → ((x ≡ default_key) ⊎ (Member x (f ∷ known) ⊎ Member x out))
          → ((x ≡ default_key) ⊎ (Member x known ⊎ Member x (f ∷ out)))
      regroup x (inl d) = inl d
      regroup x (inr (inl (inl e))) = inr (inr (inl e))
      regroup x (inr (inl (inr m))) = inr (inl m)
      regroup x (inr (inr m)) = inr (inr (inr m))

  pub new_fallbacks-Kept :
      (known fs : List PublicKey) → Kept known fs (new_fallbacks W (map to_base58 known) fs)
  unfolding new_fallbacks
  new_fallbacks-Kept known [] = record { fresh = tt; given = tt; complete = tt }
  new_fallbacks-Kept known (f ∷ fs) =
      elim (Bool-cases
        (equals f default_key || any (λ t. text_eq t (to_base58 f)) (map to_base58 known))) [
          | inl skip ↦ rw skip (
              skipped-Kept known fs _ f
                (elim (or_true (equals f default_key) _ skip) [
                  | inl d ↦ inl ((equals_iff f default_key).0 d)
                  | inr m ↦ inr (seen-Member f known m)
                ])
                (new_fallbacks-Kept known fs))
          | inr keep ↦
              let (off, unseen) = or_false (equals f default_key) _ keep in
              rw keep (
                taken-Kept known fs _ f
                  (λ e.
                    let same : equals f default_key ≡ true = (equals_iff f default_key).1 e in cc)
                  (not_seen f known unseen) (new_fallbacks-Kept (f ∷ known) fs))
        ]
