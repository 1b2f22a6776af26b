-- ===== src/Flp/Instructions/Accounts.antt =====
-- The accounts of the pool clients' instructions, against a flat reading of the interface description.
use fermi_v1_sdk.Base.{
  ◌≡◌, ◌≢◌, ◌⊎◌, ◌↔◌, inl, inr, refl, sym, ap, ap₂, subst, ◌∙◌, Bool, true, false, List, [], ◌∷◌,
  ◌++◌, Option, none, some, Result, ok, err, ◌>>=◌, map_result, map_result-append, Text, codes,
  if◌then◌else◌, Bool-cases, some_injective, from_bind, ok_injective,
}
use fermi_v1_sdk.Wire.{Bytes}
use fermi_v1_sdk.Platform.{Platform}
use fermi_v1_sdk.Intents.Accounts.{AccountMeta, meta}
use fermi_v1_sdk.Intents.Instructions.{Instruction}
use fermi_v1_sdk.Flp.Instructions.{
  Item, account, group, Items, nil, cons, IdlInstruction, find_instruction, is_omitted, account_key,
  visit_item, visit, instruction,
}

-- An account of the description with its whole path.
pub record Leaf : Type 0 where
  pub path : Text
  pub is_mut : Bool
  pub is_signer : Bool
  pub is_optional : Bool

-- The description read from left to right, groups opened.
mutual
  pub leaves_item : Text → Item → List Leaf
  leaves_item prefix (account name is_mut is_signer is_optional) =
      record {
        path = prefix ++ name;
        is_mut = is_mut;
        is_signer = is_signer;
        is_optional = is_optional;
      }
      ∷ []
  leaves_item prefix (group name items) = leaves ((prefix ++ name) ++ codes ".") items

  pub leaves : Text → Items → List Leaf
  leaves prefix nil = []
  leaves prefix (cons item items) = leaves_item prefix item ++ leaves prefix items

module _ (W : Platform) (program_id : W.PublicKey) (accounts : Text → Option W.PublicKey) where
  open W use {PublicKey, equals, equals_iff}

  abbrev Standing : Option PublicKey → Leaf → AccountMeta PublicKey → Type 0
  Standing given l m =
      ((l.is_optional ≡ true)
        × ((given ≡ none) ⊎ (given ≡ some program_id))
        × (m ≡ meta W program_id false false))
      ⊎ ((k : PublicKey) × (given ≡ some k)
          × ((l.is_optional ≡ false) ⊎ (k ≢ program_id))
          × (m ≡ meta W k l.is_signer l.is_mut))

  -- What stands for an account: the program's own key, with no flags, for an optional one that is absent
  -- or is that key; else the key given under its path, with the flags of the description.
  abbrev pub StandsFor : Leaf → AccountMeta PublicKey → Type 0
  StandsFor l m = Standing (accounts l.path) l m

  abbrev pub Aligned : List Leaf → List (AccountMeta PublicKey) → Type 0
  Aligned [] [] = Unit
  Aligned (l ∷ ls) (m ∷ ms) = StandsFor l m × Aligned ls ms
  Aligned _ _ = ⊥

  abbrev key_from : Option PublicKey → Bool → Bool → Bool → Result (AccountMeta PublicKey)
  key_from given is_mut is_signer is_optional =
      if is_omitted W program_id accounts is_optional given
      then ok (meta W program_id false false)
      else elim given [ none ↦ err "Missing FLP account" | some k ↦ ok (meta W k is_signer is_mut) ]

  given_key-Standing :
      (k : PublicKey) (path : Text) (m s o : Bool) (key : AccountMeta PublicKey)
      → key_from (some k) m s o ≡ ok key
        ↔ Standing (some k) (record { path = path; is_mut = m; is_signer = s; is_optional = o }) key
  given_key-Standing k path m s false key = (
    (λ h. inr (k, refl, inl refl, sym (ok_injective h))),
    λ h. elim h [ inl (o, n, e) ↦ absurd cc | inr (k₂, n, o, e) ↦ cc ],
  )
  given_key-Standing k path m s true key = elim (Bool-cases (equals k program_id)) [
    | inl t ↦
        let same = (equals_iff k program_id).0 t in
        (
          (λ h. inl (refl, inr (ap some same), cc)),
          λ h. elim h [
            | inl (o, n, e) ↦ cc
            | inr (k₂, n, inl o, e) ↦ absurd cc
            | inr (k₂, n, inr d, e) ↦ absurd (d (sym (some_injective n) ∙ same))
          ],
        )
    | inr f ↦ (
      (λ h. inr (k, refl, inr (λ e. cc ((equals_iff k program_id).1 e)), cc)),
      λ h. elim h [
        | inl (o, inl n, e) ↦ absurd cc
        | inl (o, inr n, e) ↦ absurd (cc ((equals_iff k program_id).1 (some_injective n)))
        | inr (k₂, n, o, e) ↦ cc
      ],
    )
  ]

  key_from-Standing :
      (given : Option PublicKey) (path : Text) (m s o : Bool) (key : AccountMeta PublicKey)
      → key_from given m s o ≡ ok key
        ↔ Standing given (record { path = path; is_mut = m; is_signer = s; is_optional = o }) key
  key_from-Standing none path m s true key = (
    (λ h. inl (refl, inl refl, sym (ok_injective h))),
    λ h. elim h [ inl (o, n, e) ↦ ap ok (sym e) | inr (k, n, rest, e) ↦ absurd cc ],
  )
  key_from-Standing none path m s false key = (
    (λ h. absurd cc),
    λ h. elim h [ inl (o, n, e) ↦ absurd cc | inr (k, n, rest, e) ↦ absurd cc ],
  )
  key_from-Standing (some k) path m s o key = given_key-Standing k path m s o key

  abbrev key_of : Leaf → Result (AccountMeta PublicKey)
  key_of l = account_key W program_id accounts l.path l.is_mut l.is_signer l.is_optional

  -- A key is built exactly when it is what stands for the account.
  account_key-StandsFor : (l : Leaf) (m : AccountMeta PublicKey) → key_of l ≡ ok m ↔ StandsFor l m
  unfolding account_key
  account_key-StandsFor l m =
      key_from-Standing (accounts l.path) l.path l.is_mut l.is_signer l.is_optional m

  keys-Aligned :
      (ls : List Leaf) (ms : List (AccountMeta PublicKey))
      → map_result key_of ls ≡ ok ms ↔ Aligned ls ms
  keys-Aligned [] [] = ((λ h. tt), λ h. refl)
  keys-Aligned [] (m ∷ ms) = ((λ h. absurd cc), λ (h : ⊥). absurd h)
  keys-Aligned (l ∷ ls) [] = (
    (λ h.
        from_bind (key_of l) (λ y. map_result key_of ls >>= λ ys. ok (y ∷ ys)) h
          λ m e rest.
            from_bind (map_result key_of ls) (λ ys. ok (m ∷ ys)) rest λ ms d r. absurd cc),
    λ (h : ⊥). absurd h,
  )
  keys-Aligned (l ∷ ls) (m ∷ ms) = (
    (λ h.
        from_bind (key_of l) (λ y. map_result key_of ls >>= λ ys. ok (y ∷ ys)) h
          λ m₂ e rest.
            from_bind (map_result key_of ls) (λ ys. ok (m₂ ∷ ys)) rest
              λ ms₂ d r. ((account_key-StandsFor l m).0 cc, (keys-Aligned ls ms).0 cc)),
    λ (s, a). rw ((account_key-StandsFor l m).1 s, (keys-Aligned ls ms).1 a),
  )

  mutual
    unfolding visit visit_item leaves leaves_item

    visit_item-leaves :
        (prefix : Text) (item : Item)
        → visit_item W program_id accounts prefix item ≡ map_result key_of (leaves_item prefix item)
    visit_item-leaves prefix (account name m s o) = refl
    visit_item-leaves prefix (group name items) = visit-leaves ((prefix ++ name) ++ codes ".") items

    visit-leaves :
        (prefix : Text) (items : Items)
        → visit W program_id accounts prefix items ≡ map_result key_of (leaves prefix items)
    visit-leaves prefix nil = refl
    visit-leaves prefix (cons item items) =
        ap₂ (λ p q. p >>= λ here. q >>= λ rest. ok (here ++ rest)) (visit_item-leaves prefix item)
          (visit-leaves prefix items)
        ∙ sym (map_result-append key_of (leaves_item prefix item) (leaves prefix items))

  -- The instruction that a description, the keys of its accounts and the encoded arguments make.
  abbrev BuiltFrom :
      Option IdlInstruction
      → Result Bytes
      → List (AccountMeta PublicKey)
      → Instruction PublicKey
      → Type 0
  BuiltFrom found encoded remaining ix =
      (definition : IdlInstruction) × (found ≡ some definition)
      × ((keys : List (AccountMeta PublicKey)) × Aligned (leaves [] definition.accounts) keys
          × ((bytes : Bytes) × (encoded ≡ ok bytes)
              × (ix ≡ record {
                program_id = program_id;
                keys = keys ++ remaining;
                data_bytes = bytes;
              })))

  abbrev pub Built :
      List IdlInstruction
      → Text
      → (Text → Result Bytes)
      → List (AccountMeta PublicKey)
      → Instruction PublicKey
      → Type 0
  Built idl name encode remaining ix =
      BuiltFrom (find_instruction name idl) (encode name) remaining ix

  abbrev finish :
      Result Bytes
      → List (AccountMeta PublicKey)
      → List (AccountMeta PublicKey)
      → Result (Instruction PublicKey)
  finish encoded remaining keys = encoded >>= λ bytes.
      ok (record { program_id = program_id; keys = keys ++ remaining; data_bytes = bytes })

  finish-BuiltFrom :
      (found : Option IdlInstruction) (encoded : Result Bytes)
      (remaining : List (AccountMeta PublicKey)) (ix : Instruction PublicKey)
      → elim found [
        | none ↦ err "Unknown FLP instruction"
        | some definition ↦
            visit W program_id accounts [] definition.accounts >>= finish encoded remaining
      ]
          ≡ ok ix
        ↔ BuiltFrom found encoded remaining ix
  finish-BuiltFrom none encoded remaining ix = ((λ h. absurd cc), λ (d, f, rest). absurd cc)
  finish-BuiltFrom (some definition) (err e) remaining ix = (
    (λ h.
        from_bind (visit W program_id accounts [] definition.accounts) (finish (err e) remaining) h
          λ keys v rest. absurd cc),
    λ (d, f, (keys, a, (bytes, e, i))). absurd cc,
  )
  finish-BuiltFrom (some definition) (ok bytes) remaining ix = (
    (λ h.
        from_bind (visit W program_id accounts [] definition.accounts) (finish (ok bytes) remaining)
          h
          λ keys v r. (
            definition,
            refl,
            (
              keys,
              (keys-Aligned (leaves [] definition.accounts) keys).0
                  (sym (visit-leaves [] definition.accounts) ∙ v),
              (bytes, refl, sym (ok_injective r)),
            ),
          )),
    λ (d, f, (keys, a, (bytes₂, e, i))).
        let read = subst (λ d. Aligned (leaves [] d.accounts) keys) (sym (some_injective f)) a in
        rw
          (visit-leaves [] definition.accounts
            ∙ (keys-Aligned (leaves [] definition.accounts) keys).1 read)
          cc,
  )

  -- An instruction of a pool client is built, and is `ix`, exactly when the description has one of that
  -- name, its arguments encode, and the accounts of `ix` are, first, one for each leaf of the description
  -- from left to right (the key given under its dotted path with the description's flags, or the program's
  -- own key without flags for an optional account that is absent or is that key), then the remaining ones.
  pub instruction_iff :
      (idl : List IdlInstruction) (name : Text) (encode : Text → Result Bytes)
      (remaining : List (AccountMeta PublicKey)) (ix : Instruction PublicKey)
      → instruction W program_id accounts idl name encode remaining ≡ ok ix
        ↔ Built idl name encode remaining ix
  unfolding instruction
  instruction_iff idl name encode remaining ix =
      finish-BuiltFrom (find_instruction name idl) (encode name) remaining ix
