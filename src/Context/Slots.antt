-- ===== src/Context/Slots.antt =====
-- The token slots of src/context.ts: which mints an account's health needs, each once.
use fermi_v1_sdk.Base.{
  ℕ, filter, ◌≡◌, ◌≢◌, ◌⊎◌, inl, inr, refl, sym, subst, arith, true, false, not, ◌&&◌, List, [],
  ◌∷◌, some, map, All, ok, err, ◌==◌, ==_iff, Bool-cases, map_result, from_bind, from_throw,
  ok_injective, not-false, Option-cases, ◌∙◌,
}
use fermi_v1_sdk.Context.{
  MintInfo, Group, includes, unique_from, unique_by, token_positions, mint_info_for, mint_infos,
  replace_first,
}
use fermi_v1_sdk.Context.Fallbacks.{Member, All-mono, or_false, or_true}

abbrev pub FreshKeys : List ℕ → List ℕ → Type 0
FreshKeys seen [] = Unit
FreshKeys seen (k ∷ ks) = All (λ x. x ≢ k) seen × FreshKeys (k ∷ seen) ks

includes-Member : (n : ℕ) (ns : List ℕ) → includes n ns ≡ true → Member n ns
includes-Member n [] h = cc
includes-Member n (k ∷ ns) h = elim (or_true (k == n) _ h) [
  | inl e ↦ inl ((==_iff k n).0 e)
  | inr m ↦ inr (includes-Member n ns m)
]

not_includes : (n : ℕ) (ns : List ℕ) → includes n ns ≡ false → All (λ x. x ≢ n) ns
not_includes n [] h = tt
not_includes n (k ∷ ns) h =
    let (off, more) = or_false (k == n) _ h in (λ e. ground arith, not_includes n ns more)

module _ {A : Type 0} (key : A → ℕ) where
  -- The first value of each key, and no other.
  pub record Unique (seen : List ℕ) (values out : List A) : Type 0 where
    pub distinct : FreshKeys seen (map key out)
    pub given : All (λ a. Member a values) out
    pub covers : All (λ a. Member (key a) seen ⊎ Member (key a) (map key out)) values

  pub unique_from-Unique :
      (seen : List ℕ) (values : List A) → Unique seen values (unique_from key seen values)
  unfolding unique_from
  unique_from-Unique seen [] = record { distinct = tt; given = tt; covers = tt }
  unique_from-Unique seen (x ∷ xs) = elim (Bool-cases (includes (key x) seen)) [
    | inl old ↦
        let u = unique_from-Unique seen xs in
        rw old (record {
          distinct = u.distinct;
          given = All-mono _ (λ a. Member a (x ∷ xs)) _ (λ a m. inr m) u.given;
          covers = (inl (includes-Member (key x) seen old), u.covers);
        })
    | inr new ↦
        let u = unique_from-Unique (key x ∷ seen) xs in
        rw new (record {
          distinct = (not_includes (key x) seen new, u.distinct);
          given = (inl refl, All-mono _ (λ a. Member a (x ∷ xs)) _ (λ a m. inr m) u.given);
          covers = (
            inr (inl refl),
            All-mono _ _ xs (regroup (unique_from key (key x ∷ seen) xs)) u.covers,
          );
        })
  ]
    where
      regroup :
          (out : List A) (a : A)
          → (Member (key a) (key x ∷ seen) ⊎ Member (key a) (map key out))
          → (Member (key a) seen ⊎ Member (key a) (key x ∷ map key out))
      regroup out a (inl (inl e)) = inr (inl e)
      regroup out a (inl (inr m)) = inl m
      regroup out a (inr m) = inr (inr m)

module _ {K : Type 0} (g : Group K) where
  mint_info_for-eq :
      (i : ℕ) {info : MintInfo K} → mint_info_for g i ≡ ok info → g.mint_info_of i ≡ some info
  unfolding mint_info_for
  mint_info_for-eq i {info} h = elim (Option-cases (g.mint_info_of i)) [
    | inl e ↦
        let no : err "missing mint info for token index" ≡ ok info = rw (e, mint_info_for) at h in
        cc
    | inr (a, e) ↦
        let same : ok a ≡ ok info = rw (e, mint_info_for) at h in
        subst (λ x. g.mint_info_of i ≡ some x) (ok_injective same) e
  ]

  -- A token that has its information among the infos.
  abbrev pub HasInfo : List (MintInfo K) → ℕ → Type 0
  HasInfo infos i = (info : MintInfo K) × (g.mint_info_of i ≡ some info) × Member info infos

  map_result-HasInfo :
      (is : List ℕ) {infos : List (MintInfo K)}
      → map_result (mint_info_for g) is ≡ ok infos
      → All (HasInfo infos) is
  map_result-HasInfo [] h = tt
  map_result-HasInfo (i ∷ is) {infos} h = from_bind (mint_info_for g i) _ h λ info ei h1.
      from_bind (map_result (mint_info_for g) is) _ h1 λ rest er h2.
        subst (λ l. All (HasInfo l) (i ∷ is)) (ok_injective h2)
          (
            (info, mint_info_for-eq i ei, inl refl),
            All-mono _ (HasInfo (info ∷ rest)) is (λ j (x, e, m). (x, e, inr m))
                (map_result-HasInfo is er),
          )

  filter_keeps :
      (i : ℕ) (is : List ℕ)
      → i ≢ g.token_index_unset
      → Member i is
      → Member i (filter (λ j. not (j == g.token_index_unset)) is)
  filter_keeps i [] off m = elim m [ ]
  filter_keeps i (j ∷ is) off (inl e) =
      let kept : not (j == g.token_index_unset) ≡ true = ground arith in rw kept (inl e)
  filter_keeps i (j ∷ is) off (inr m) = elim (Bool-cases (not (j == g.token_index_unset))) [
    | inl t ↦ rw t (inr (filter_keeps i is off m))
    | inr f ↦ rw f (filter_keeps i is off m)
  ]

  All-elem :
      (P : MintInfo K → Type 0) (x : MintInfo K) (xs : List (MintInfo K))
      → All P xs
      → Member x xs
      → P x
  All-elem P x [] ps m = elim m [ ]
  All-elem P x (y ∷ xs) (p, ps) (inl e) = subst P e p
  All-elem P x (y ∷ xs) (p, ps) (inr m) = All-elem P x xs ps m

  All-Member : (P : ℕ → Type 0) (i : ℕ) (is : List ℕ) → All P is → Member i is → P i
  All-Member P i [] ps m = elim m [ ]
  All-Member P i (j ∷ is) (p, ps) (inl e) = subst P e p
  All-Member P i (j ∷ is) (p, ps) (inr m) = All-Member P i is ps m

  -- An info that the group has for a used slot.
  abbrev pub FromSlot : List ℕ → MintInfo K → Type 0
  FromSlot indices info =
      (i : ℕ) × (g.mint_info_of i ≡ some info) × Member i indices × (i ≢ g.token_index_unset)

  map_result-FromSlot :
      (is : List ℕ) {infos : List (MintInfo K)}
      → map_result (mint_info_for g) is ≡ ok infos
      → All (λ info. (i : ℕ) × (g.mint_info_of i ≡ some info) × Member i is) infos
  map_result-FromSlot [] h =
      subst (All (λ info. (i : ℕ) × (g.mint_info_of i ≡ some info) × Member i [])) (ok_injective h)
        tt
  map_result-FromSlot (i ∷ is) {infos} h = from_bind (mint_info_for g i) _ h λ info ei h1.
      from_bind (map_result (mint_info_for g) is) _ h1 λ rest er h2.
        subst (All (λ info. (j : ℕ) × (g.mint_info_of j ≡ some info) × Member j (i ∷ is)))
          (ok_injective h2)
          (
            (i, mint_info_for-eq i ei, inl refl),
            All-mono _ _ rest (λ x (j, e, m). (j, e, inr m)) (map_result-FromSlot is er),
          )

  filter_from :
      (i : ℕ) (is : List ℕ)
      → Member i (filter (λ j. not (j == g.token_index_unset)) is)
      → Member i is × (i ≢ g.token_index_unset)
  filter_from i [] m = elim m [ ]
  filter_from i (j ∷ is) m = elim (Bool-cases (j == g.token_index_unset)) [
    | inl t ↦ let (k, off) = filter_from i is (rw t at m) in (inr k, off)
    | inr f ↦ elim (rw f at m) [
      | inl e ↦ (inl e, λ q. ground arith)
      | inr k ↦ let (l, off) = filter_from i is k in (inr l, off)
    ]
  ]

  -- The infos of the slots: no token twice, and each used slot's token among them.
  pub record Covered (indices : List ℕ) (infos : List (MintInfo K)) : Type 0 where
    pub once : FreshKeys [] (map (λ (m : MintInfo K). m.token_index) infos)
    pub each :
        (i : ℕ)
        → i ≢ g.token_index_unset
        → Member i indices
        → (info : MintInfo K) × (g.mint_info_of i ≡ some info)
          × Member info.token_index (map (λ (m : MintInfo K). m.token_index) infos)
    pub real : All (FromSlot indices) infos

  pub mint_infos-Covered :
      (indices : List ℕ) {infos : List (MintInfo K)}
      → mint_infos g indices ≡ ok infos
      → Covered indices infos
  unfolding mint_infos unique_by
  mint_infos-Covered indices h =
      from_bind
        (map_result (mint_info_for g) (filter (λ j. not (j == g.token_index_unset)) indices)) _ h
        λ all ea h1.
          let u = unique_from-Unique (λ (m : MintInfo K). m.token_index) [] all in
          subst (Covered indices) (ok_injective h1) (record {
            once = u.distinct;
            each = λ i off m.
                let (info, e, here) =
                  All-Member (HasInfo all) i _ (map_result-HasInfo _ ea)
                    (filter_keeps i indices off m) in
                (info, e, covered all info _ here u.covers);
            real =
                All-mono _ _ _
                  (λ info m.
                    let (i, e, k) = All-elem _ info all (map_result-FromSlot _ ea) m in
                    let (l, off) = filter_from i indices k in (i, e, l, off))
                  u.given;
          })
    where
      covered :
          (all : List (MintInfo K)) (info : MintInfo K) (keys : List ℕ)
          → Member info all
          → All (λ (a : MintInfo K). Member a.token_index [] ⊎ Member a.token_index keys) all
          → Member info.token_index keys
      covered [] info keys m cs = elim m [ ]
      covered (a ∷ all) info keys (inl e) (inl m, _) = elim m [ ]
      covered (a ∷ all) info keys (inl e) (inr m, _) =
          subst (λ (x : MintInfo K). Member x.token_index keys) e m
      covered (a ∷ all) info keys (inr here) (_, cs) = covered all info keys here cs

replace_keeps :
    (from to i : ℕ) (ns : List ℕ) → i ≢ from → Member i ns → Member i (replace_first from to ns)
unfolding replace_first
replace_keeps from to i [] off m = elim m [ ]
replace_keeps from to i (n ∷ ns) off m = elim (Bool-cases (n == from)) [
  | inl e ↦
      rw e (elim m [
        | inl here ↦ absurd (off (sym here ∙ (==_iff n from).0 e))
        | inr later ↦ inr later
      ])
  | inr e ↦
      rw e (elim m [ inl here ↦ inl here | inr later ↦ inr (replace_keeps from to i ns off later) ])
]

replace_from :
    (from to i : ℕ) (ns : List ℕ) → Member i (replace_first from to ns) → (i ≡ to) ⊎ Member i ns
unfolding replace_first
replace_from from to i [] m = elim m [ ]
replace_from from to i (n ∷ ns) m = elim (Bool-cases (n == from)) [
  | inl e ↦ elim (rw e at m) [ inl here ↦ inl (sym here) | inr later ↦ inr (inr later) ]
  | inr e ↦ elim (rw e at m) [
    | inl here ↦ inr (inl here)
    | inr later ↦ elim (replace_from from to i ns later) [ inl h ↦ inl h | inr h ↦ inr (inr h) ]
  ]
]

-- The settlement token has a slot, no used slot is lost, and no other token has one.
pub token_positions-Member :
    (settlement unset : ℕ) (tokens : List ℕ) {indices : List ℕ}
    → token_positions settlement unset tokens ≡ ok indices
    → Member settlement indices
      × ((i : ℕ) → i ≢ unset → Member i tokens → Member i indices)
      × ((i : ℕ) → Member i indices → (i ≡ settlement) ⊎ Member i tokens)
unfolding token_positions
token_positions-Member settlement unset tokens {indices} h =
    elim (Bool-cases (not (includes settlement tokens) && includes unset tokens)) [
      | inl t ↦
          from_throw (not (includes settlement (replace_first unset settlement tokens))) _ _
            (rw t at h)
            λ n k. subst Slotted (ok_injective k) (
              includes-Member settlement _ (not-false _ n),
              λ i off m. replace_keeps unset settlement i tokens off m,
              λ i m. replace_from unset settlement i tokens m,
            )
      | inr t ↦ from_throw (not (includes settlement tokens)) _ _ (rw t at h) λ n k.
          subst Slotted (ok_injective k)
            (includes-Member settlement _ (not-false _ n), λ i off m. m, λ i m. inr m)
    ]
  where
    Slotted : List ℕ → Type 0
    Slotted is =
        Member settlement is
        × ((i : ℕ) → i ≢ unset → Member i tokens → Member i is)
        × ((i : ℕ) → Member i is → (i ≡ settlement) ⊎ Member i tokens)
