-- ===== src/Intents/Accounts/Merging.antt =====
-- What the merged flags are: src/intents.ts, `mergeEffectiveRuntimeFlags`.
use fermi_v1_sdk.Base.{
  Bool, true, ◌&&◌, ◌||◌, ◌≡◌, refl, ◌∙◌, ap, arith, List, [], ◌∷◌, ◌++◌, map, Option, none, some,
  Text, text_eq, text_eq_iff, text_eq_refl, if◌then◌else◌, any, All, Bool-cases, Option-cases,
  append_assoc, ap₂, subst, inl, inr,
}
use fermi_v1_sdk.Platform.{Platform}
use fermi_v1_sdk.Intents.Accounts.{
  AccountMeta, Flags, Flagged, map_get, map_set, merge_step, merge_all, with_flags,
  merge_effective_runtime_flags,
}

map_get-map_set :
    (k j : Text) (v : Flags) (m : Flagged)
    → map_get j (map_set k v m) ≡ (if text_eq k j then some v else map_get j m)
unfolding map_get map_set
map_get-map_set k j v [] = refl
map_get-map_set k j v ((i, w) ∷ m) =
    ground (arith, text_eq_iff k j, text_eq_iff i k, text_eq_iff i j, map_get-map_set k j v m)

-- What an account adds to the flags that are already there.
abbrev or_flags : {K : Type 0} → Option Flags → AccountMeta K → Flags
or_flags none a = record { signer = a.is_signer; writable = a.is_writable }
or_flags (some f) a = record {
  signer = f.signer || a.is_signer;
  writable = f.writable || a.is_writable;
}

module _ (W : Platform) where
  open W use {PublicKey, equals, equals_iff, to_base58, to_base58_injective}

  abbrev key : AccountMeta PublicKey → Text
  key a = to_base58 a.pubkey

  map_get-merge_step :
      (k : Text) (m : Flagged) (a : AccountMeta PublicKey)
      → map_get k (merge_step W m a)
        ≡ (if text_eq (key a) k then some (or_flags (map_get k m) a) else map_get k m)
  unfolding merge_step
  map_get-merge_step k m a = elim (Option-cases (map_get (key a) m)) [
    | inl e ↦ rw (e, merge_step) (map_get-map_set (key a) k _ m ∙ same none e)
    | inr (f, e) ↦ rw (e, merge_step) (map_get-map_set (key a) k _ m ∙ same (some f) e)
  ]
    where
      same :
          (o : Option Flags)
          → map_get (key a) m ≡ o
          → (if text_eq (key a) k then some (or_flags o a) else map_get k m)
            ≡ (if text_eq (key a) k then some (or_flags (map_get k m) a) else map_get k m)
      same o e = elim (Bool-cases (text_eq (key a) k)) [
        | inl t ↦ rw (t, ← (text_eq_iff (key a) k).0 t, e)
        | inr t ↦ rw t
      ]

  collect : Text → Option Flags → List (AccountMeta PublicKey) → Option Flags
  collect k o [] = o
  collect k o (a ∷ l) = collect k (if text_eq (key a) k then some (or_flags o a) else o) l

  map_get-merge_all :
      (k : Text) (m : Flagged) (l : List (AccountMeta PublicKey))
      → map_get k (merge_all W m l) ≡ collect k (map_get k m) l
  unfolding merge_all collect
  map_get-merge_all k m [] = refl
  map_get-merge_all k m (a ∷ l) =
      map_get-merge_all k (merge_step W m a) l ∙ ap (λ o. collect k o l) (map_get-merge_step k m a)

  -- Some account with this key is a signer; some one is writable; some one is there.
  abbrev pub any_signer : Text → List (AccountMeta PublicKey) → Bool
  any_signer k l = any (λ b. text_eq (to_base58 b.pubkey) k && b.is_signer) l

  abbrev pub any_writable : Text → List (AccountMeta PublicKey) → Bool
  any_writable k l = any (λ b. text_eq (to_base58 b.pubkey) k && b.is_writable) l

  abbrev occurs : Text → List (AccountMeta PublicKey) → Bool
  occurs k l = any (λ b. text_eq (to_base58 b.pubkey) k) l

  or_assoc : (a b c : Bool) → ((a || b) || c) ≡ (a || (b || c))
  or_assoc a b c = ground arith

  collect-some :
      (k : Text) (f : Flags) (l : List (AccountMeta PublicKey))
      → collect k (some f) l
        ≡ some (record {
          signer = f.signer || any_signer k l;
          writable = f.writable || any_writable k l;
        })
  unfolding collect
  collect-some k f [] = ground arith
  collect-some k f (a ∷ l) = elim (Bool-cases (text_eq (key a) k)) [
    | inl t ↦ rw t (
        collect-some k (or_flags (some f) a) l
        ∙ cc (
          or_assoc f.signer a.is_signer (any_signer k l),
          or_assoc f.writable a.is_writable (any_writable k l),
        ))
    | inr t ↦ rw t (collect-some k f l)
  ]

  collect-none :
      (k : Text) (l : List (AccountMeta PublicKey))
      → occurs k l ≡ true
      → collect k none l ≡ some (record { signer = any_signer k l; writable = any_writable k l })
  unfolding collect
  collect-none k [] h = cc
  collect-none k (a ∷ l) h = elim (Bool-cases (text_eq (key a) k)) [
    | inl t ↦ rw t (collect-some k (or_flags none a) l)
    | inr t ↦ rw t (collect-none k l (rw t at h))
  ]

  -- The same account as a specification gives it.
  abbrev pub effective :
      List (AccountMeta PublicKey) → AccountMeta PublicKey → AccountMeta PublicKey
  effective all_accounts a = record {
    pubkey = a.pubkey;
    is_signer = any_signer (to_base58 a.pubkey) all_accounts;
    is_writable = any_writable (to_base58 a.pubkey) all_accounts;
  }

  occurs_append :
      (k : Text) (xs ys : List (AccountMeta PublicKey))
      → occurs k ys ≡ true
      → occurs k (xs ++ ys) ≡ true
  occurs_append k [] ys h = h
  occurs_append k (x ∷ xs) ys h = ground (arith, occurs_append k xs ys h)

  each_occurs :
      (pre rest : List (AccountMeta PublicKey))
      → All (λ a. occurs (key a) (pre ++ rest) ≡ true) rest
  each_occurs pre [] = tt
  each_occurs pre (a ∷ rest) = (
    occurs_append (key a) pre (a ∷ rest) (ground (arith, text_eq_refl (key a))),
    subst (λ t. All (λ b. occurs (key b) t ≡ true) rest) (append_assoc pre (a ∷ []) rest)
        (each_occurs (pre ++ a ∷ []) rest),
  )

  with_flags-some :
      (m : Flagged) (a : AccountMeta PublicKey) {f : Flags}
      → map_get (key a) m ≡ some f
      → with_flags W m a
        ≡ record { pubkey = a.pubkey; is_signer = f.signer; is_writable = f.writable }
  unfolding with_flags
  with_flags-some m a e = rw (e, with_flags) refl

  map-effective :
      (total rest : List (AccountMeta PublicKey))
      → All (λ a. occurs (key a) total ≡ true) rest
      → map (with_flags W (merge_all W [] total)) rest ≡ map (effective total) rest
  unfolding map_get
  map-effective total [] h = refl
  map-effective total (a ∷ rest) (h, hs) =
      let e = map_get-merge_all (key a) [] total ∙ collect-none (key a) total h in
      ap₂ ◌∷◌ (with_flags-some (merge_all W [] total) a e) (map-effective total rest hs)

  -- After the merge each remaining account is a signer, or writable, exactly when the account is one
  -- under the same key anywhere among the fixed and the remaining accounts; order and keys stay.
  pub merge-effective :
      (remaining fixed : List (AccountMeta PublicKey))
      → merge_effective_runtime_flags W remaining fixed
        ≡ map (effective (fixed ++ remaining)) remaining
  unfolding merge_effective_runtime_flags
  merge-effective remaining fixed =
      map-effective (fixed ++ remaining) remaining (each_occurs fixed remaining)
