-- ===== src/Flp/V4/Prepared.antt =====
-- What every list of instructions for a pool's user has in common.
use fermi_v1_sdk.Base.{
  ℕ, ◌^◌, ◌<◌, ℤ, pos, negsuc, ◌≡◌, refl, sym, ap, ◌∙◌, subst, arith, Bool, true, false, not, List,
  [], ◌∷◌, ◌++◌, some, Result, ok, ◌>>=◌, Text, codes, text_eq, ◌==◌, from_bind, from_throw,
  ok_injective,
}
use fermi_v1_sdk.Intents.Accounts.{AccountMeta}
use fermi_v1_sdk.Flp.V4.{
  Addresses, VaultState, Named, given, Arg, amount, Call, Step, vault_call, create_token_account,
  uint, require_v4, init_depositor, user_entries, user_accounts, user_call, preparation,
  prepared_user, share_account, quote_account,
}
use fermi_v1_sdk.Flp.V4.Users.{push_keys}

pub uint-bound : (z : ℤ) (bits : ℕ) {n : ℕ} → uint z bits ≡ ok n → n < 2 ^ bits
unfolding uint
uint-bound (pos m) bits h = ground arith
uint-bound (negsuc m) bits h = absurd cc

given-append :
    {K : Type 0} (xs ys : Named K) (path : Text) {k : K}
    → given ys path ≡ some k
    → given (xs ++ ys) path ≡ some k
unfolding given
given-append [] ys path h = h
given-append ((name, k₂) ∷ xs) ys path h = rw (given-append xs ys path h) refl

-- Every amount among the arguments is a u64.
abbrev pub U64Args : {K : Type 0} → List (Text × Arg K) → Type 0
U64Args [] = Unit
U64Args ((name, amount n) ∷ args) = (n < 2 ^ 64) × U64Args args
U64Args ((name, a) ∷ args) = U64Args args

push_keys-last :
    {K : Type 0} (metas : List (AccountMeta K)) (steps : List (Step K)) (c : Call K)
    → push_keys metas (steps ++ vault_call c ∷ [])
      ≡ steps ++ vault_call (record c { remaining = c.remaining ++ metas }) ∷ []
unfolding push_keys
push_keys-last metas [] c = refl
push_keys-last metas (s ∷ []) c = refl
push_keys-last metas (s ∷ t ∷ steps) c = ap (λ r. s ∷ r) (push_keys-last metas (t ∷ steps) c)

module _ {K : Type 0} (A : Addresses K) (vault : K) (state : VaultState K) (user payer : K) where
  -- The accounts of a call are the vault's and the user's own, whatever the caller gave by these names.
  abbrev pub Own : Named K → Type 0
  Own accounts =
      (given accounts (codes "vault") ≡ some vault)
      × (given accounts (codes "user") ≡ some user)
      × (given accounts (codes "authority") ≡ some (A.authority vault))
      × (given accounts (codes "depositor") ≡ some (A.depositor vault user))
      × (given accounts (codes "userQuoteAccount")
          ≡ some (A.token_account state.quote_mint user A.token_program))
      × (given accounts (codes "userShareAccount")
          ≡ some (A.token_account state.share_mint user A.token_2022_program))
      × (given accounts (codes "depositEscrow") ≡ some state.deposit_escrow)
      × (given accounts (codes "redemptionEscrow") ≡ some state.redemption_escrow)

  -- Token accounts of the user, paid for by the payer.
  abbrev pub UserAccounts : List (Step K) → Type 0
  UserAccounts [] = Unit
  UserAccounts (create_token_account p account owner mint program ∷ steps) =
      (p ≡ payer)
      × (owner ≡ user)
      × (account ≡ A.token_account mint user program)
      × UserAccounts steps
  UserAccounts (vault_call c ∷ steps) = ⊥

  -- The steps for a request that the program knows by `name`.
  abbrev pub Prepared : Text → List (Step K) → Type 0
  Prepared name steps =
      (state.version ≡ 4)
      × ((creates : List (Step K)) × UserAccounts creates
          × ((c : Call K) × (c.name ≡ name)
              × Own c.accounts
              × U64Args c.args
              × (steps
                  ≡ (vault_call (init_depositor A vault user payer) ∷ creates)
                    ++ vault_call c ∷ [])))

  last_entry :
      (extra : Named K) (path : Text) {k : K}
      → given (user_entries A vault state user) path ≡ some k
      → given (extra ++ user_entries A vault state user) path ≡ some k
  last_entry extra path h = given-append extra (user_entries A vault state user) path h

  entries-Own : (extra : Named K) → Own (extra ++ user_entries A vault state user)
  unfolding given text_eq
  entries-Own extra = (
    last_entry extra (codes "vault") refl,
    last_entry extra (codes "user") refl,
    last_entry extra (codes "authority") refl,
    last_entry extra (codes "depositor") refl,
    last_entry extra (codes "userQuoteAccount") refl,
    last_entry extra (codes "userShareAccount") refl,
    last_entry extra (codes "depositEscrow") refl,
    last_entry extra (codes "redemptionEscrow") refl,
  )

  -- A call made from the user's accounts, once it is known where it stands.
  pub user_call-Prepared :
      (name : Text) (arguments : Result (List (Text × Arg K))) (extra : Named K)
      (metas : List (AccountMeta K)) (creates : List (Step K)) {steps : List (Step K)}
      → UserAccounts creates
      → ((args : List (Text × Arg K)) → arguments ≡ ok args → U64Args args)
      → (user_call A vault name state user arguments extra metas >>= λ last.
          ok ((vault_call (init_depositor A vault user payer) ∷ creates) ++ last ∷ []))
        ≡ ok steps
      → Prepared name steps
  unfolding user_call user_accounts require_v4
  user_call-Prepared name arguments extra metas creates {steps} u b h =
      from_bind (user_call A vault name state user arguments extra metas)
        (λ last. ok ((vault_call (init_depositor A vault user payer) ∷ creates) ++ last ∷ [])) h
        λ last c s.
          from_bind (user_accounts A vault state user)
            (λ own. arguments >>= λ args. ok (
              vault_call
                (record { name = name; accounts = extra ++ own; args = args; remaining = metas })))
            c
            λ own o c₂.
              from_bind arguments
                (λ args. ok (
                  vault_call (record {
                    name = name;
                    accounts = extra ++ own;
                    args = args;
                    remaining = metas;
                  })))
                c₂
                λ args a c₃.
                  from_throw (not (state.version == 4)) "Expected a fresh v4 vault"
                    (ok (user_entries A vault state user)) o
                    λ v e. (
                      ground arith,
                      (
                        creates,
                        u,
                        (
                          record {
                            name = name;
                            accounts = extra ++ own;
                            args = args;
                            remaining = metas;
                          },
                          refl,
                          subst (λ (own : Named K). Own (extra ++ own)) (ok_injective e)
                              (entries-Own extra),
                          b args a,
                          sym (ok_injective s)
                              ∙ ap
                                  (λ l.
                                    (vault_call (init_depositor A vault user payer) ∷ creates)
                                    ++ l ∷ [])
                                  (sym (ok_injective c₃)),
                        ),
                      ),
                    )

  preparation_accounts :
      (share_ata quote_ata : Bool)
      → (creates : List (Step K)) × UserAccounts creates
        × (preparation A vault state user payer share_ata quote_ata
            ≡ vault_call (init_depositor A vault user payer) ∷ creates)
  unfolding preparation
  preparation_accounts true true = (
    share_account A vault state user payer ∷ quote_account A vault state user payer ∷ [],
    (refl, refl, refl, (refl, refl, refl, tt)),
    refl,
  )
  preparation_accounts true false =
      (share_account A vault state user payer ∷ [], (refl, refl, refl, tt), refl)
  preparation_accounts false true =
      (quote_account A vault state user payer ∷ [], (refl, refl, refl, tt), refl)
  preparation_accounts false false = ([], tt, refl)

  pub prepared_user-Prepared :
      (name : Text) (args : List (Text × Arg K)) (extra : Named K) (share_ata quote_ata : Bool)
      {steps : List (Step K)}
      → U64Args args
      → prepared_user A vault name state user args extra payer share_ata quote_ata ≡ ok steps
      → Prepared name steps
  unfolding prepared_user
  prepared_user-Prepared name args extra share_ata quote_ata {steps} b h =
      let (creates, u, e) = preparation_accounts share_ata quote_ata in
      user_call-Prepared name (ok args) extra [] creates u
        (λ args₂ q. subst U64Args (ok_injective q) b)
        (subst
          (λ prep.
            (user_call A vault name state user (ok args) extra [] >>= λ last.
            ok (prep ++ last ∷ []))
            ≡ ok steps)
          e h)

  pub push_keys-Prepared :
      (name : Text) (metas : List (AccountMeta K)) (steps : List (Step K))
      → Prepared name steps
      → Prepared name (push_keys metas steps)
  push_keys-Prepared name metas steps (v, (creates, u, (c, n, o, b, e))) = (
    v,
    (
      creates,
      u,
      (
        record c { remaining = c.remaining ++ metas },
        n,
        o,
        b,
        ap (push_keys metas) e
            ∙ push_keys-last metas (vault_call (init_depositor A vault user payer) ∷ creates) c,
      ),
    ),
  )
