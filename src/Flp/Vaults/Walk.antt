-- ===== src/Flp/Vaults/Walk.antt =====
-- The walk over the deferred epochs in `closeEpoch` of src/flp/index.ts.
use fermi_v1_sdk.Base.{
  ℕ, zero, suc, ◌≤◌, ◌≡◌, ◌≢◌, ◌↔◌, ◌⊎◌, inl, inr, refl, sym, subst, ap, ◌∙◌, arith, Bool, true,
  false, not, ◌&&◌, List, [], ◌∷◌, Option, none, some, Result, ok, ◌==◌, ==_iff, any, length,
  Bool-cases, from_bind, from_throw, ok_injective, Number, whole, pos, negsuc, other, not-false,
}
use fermi_v1_sdk.Flp.Vaults.{
  none_epoch, EpochRecord, record_matches, deferred_batches, close_epoch_batches, batch_limit,
}

-- The epoch is not among those of the list.
abbrev pub Fresh : ℕ → List ℕ → Type 0
Fresh e [] = Unit
Fresh e (s ∷ seen) = (s ≢ e) × Fresh e seen

-- The epochs are new and pairwise different.
abbrev pub Distinct : List ℕ → List ℕ → Type 0
Distinct seen [] = Unit
Distinct seen (b ∷ bs) = Fresh b seen × Distinct (b ∷ seen) bs

fresh : (e : ℕ) (seen : List ℕ) → any (λ s. s == e) seen ≡ false → Fresh e seen
fresh e [] h = tt
fresh e (s ∷ seen) h =
    let off : (s == e) ≡ false = ground arith in
    let more : any (λ s. s == e) seen ≡ false = ground arith in
    (λ q. ground arith, fresh e seen more)

less : (left more : ℕ) → suc left ≡ suc more → more ≡ left
less left more h = ground arith

not_same : (a b : ℕ) → a ≢ b → (a == b) ≡ false
not_same a b h = ground arith

not_seen : (e : ℕ) (seen : List ℕ) → Fresh e seen → any (λ s. s == e) seen ≡ false
not_seen e [] f = refl
not_seen e (s ∷ seen) (off, f) = rw (not_same s e off) (not_seen e seen f)

-- The limit that the options give.
abbrev pub Limit : Option Number → ℕ → Type 0
Limit none n = n ≡ 2
Limit (some x) n = (x ≡ whole (pos n)) × (1 ≤ n) × (n ≤ 8)

given : (m : ℕ) {n : ℕ} → batch_limit (some (whole (pos m))) ≡ ok n → m ≡ n
unfolding batch_limit
given m h = ground arith

given_limit : (n : ℕ) → 1 ≤ n → n ≤ 8 → batch_limit (some (whole (pos n))) ≡ ok n
unfolding batch_limit
given_limit n lo hi = ground arith

batch_limit-Limit : (options : Option Number) {n : ℕ} → batch_limit options ≡ ok n → Limit options n
unfolding batch_limit
batch_limit-Limit none h = ground arith
batch_limit-Limit (some (whole (pos m))) h =
    (ap (λ x. whole (pos x)) (given m h), ground arith, ground arith)
batch_limit-Limit (some (whole (negsuc m))) h = cc
batch_limit-Limit (some (other t)) h = cc

Limit-batch_limit : (options : Option Number) (n : ℕ) → Limit options n → batch_limit options ≡ ok n
unfolding batch_limit
Limit-batch_limit none n h = rw h refl
Limit-batch_limit (some x) n (e, lo, hi) = rw e (given_limit n lo hi)

module _ {K : Type 0} (same_key : K → K → Bool) (fetch_epoch : ℕ → Result (EpochRecord K)) where
  -- The batches are the epochs from `next` on, each linked to the one behind it, with a pending record
  -- of the vault, up to the limit or to the end of the queue.
  abbrev pub Linked : K → ℕ → ℕ → List ℕ → Type 0
  Linked vault left next [] = (left ≡ 0) ⊎ (next ≡ none_epoch)
  Linked vault left next (b ∷ bs) =
      (b ≡ next)
      × (next ≢ none_epoch)
      × ((r : EpochRecord K) × (fetch_epoch b ≡ ok r)
          × (same_key r.vault vault ≡ true)
          × (r.epoch ≡ b)
          × (r.wd_status ≡ 2)
          × ((more : ℕ) × (left ≡ suc more) × Linked vault more r.next_deferred bs))

  matches_parts :
      (vault : K) (next : ℕ) (r : EpochRecord K)
      → record_matches same_key fetch_epoch vault next r ≡ true
      → (same_key r.vault vault ≡ true) × (r.epoch ≡ next) × (r.wd_status ≡ 2)
  matches_parts vault next r h = three (same_key r.vault vault) r.epoch next r.wd_status h
    where
      three :
          (a : Bool) (e n w : ℕ) → (a && (e == n && w == 2)) ≡ true → (a ≡ true) × (e ≡ n) × (w ≡ 2)
      three a e n w h = (ground arith, ground arith, ground arith)

  parts-matches :
      (vault : K) (next : ℕ) (r : EpochRecord K)
      → same_key r.vault vault ≡ true
      → r.epoch ≡ next
      → r.wd_status ≡ 2
      → record_matches same_key fetch_epoch vault next r ≡ true
  parts-matches vault next r same epoch status =
      rw (same, (==_iff r.epoch next).1 epoch, status) refl

  -- What the loop has collected.
  pub record Collected (vault : K) (left next : ℕ) (seen bs : List ℕ) : Type 0 where
    pub linked : Linked vault left next bs
    pub distinct : Distinct seen bs
    pub within : length bs ≤ left

  deferred_batches-Collected :
      (vault : K) (left next : ℕ) (seen : List ℕ) {bs : List ℕ}
      → deferred_batches same_key fetch_epoch vault left next seen ≡ ok bs
      → Collected vault left next seen bs
  unfolding deferred_batches
  deferred_batches-Collected vault zero next seen h =
      subst (Collected vault 0 next seen) (ok_injective h)
        (record { linked = inl refl; distinct = tt; within = omega arith })
  deferred_batches-Collected vault (suc left) next seen {bs} h =
      elim (Bool-cases (next == none_epoch)) [
        | inl e ↦
            let done : ok [] ≡ ok bs = rw (e, deferred_batches) at h in
            subst (Collected vault (suc left) next seen) (ok_injective done) (record {
              linked = inr ((==_iff next none_epoch).0 e);
              distinct = tt;
              within = omega arith;
            })
        | inr e ↦
            from_throw (any (λ s. s == next) seen) _ _ (rw (e, deferred_batches) at h) λ t1 h1.
              from_bind (fetch_epoch next) _ h1 λ r er h2.
                from_throw (not (record_matches same_key fetch_epoch vault next r)) _ _ h2 λ t2 h3.
                  from_bind
                    (deferred_batches same_key fetch_epoch vault left r.next_deferred (next ∷ seen))
                    _ h3
                    λ rest ed h4.
                      let c =
                        deferred_batches-Collected vault left r.next_deferred (next ∷ seen) ed in
                      let (same, epoch, status) = matches_parts vault next r (not-false _ t2) in
                      subst (Collected vault (suc left) next seen) (ok_injective h4) (record {
                        linked = (
                          refl,
                          λ q. ground (arith, q),
                          (r, er, same, epoch, status, (left, refl, c.linked)),
                        );
                        distinct = (fresh next seen t1, c.distinct);
                        within = omega (arith, c.within);
                      })
      ]

  -- The loop collects every queue that is linked and has no cycle.
  Linked-deferred_batches :
      (vault : K) (left next : ℕ) (seen bs : List ℕ)
      → Linked vault left next bs
      → Distinct seen bs
      → deferred_batches same_key fetch_epoch vault left next seen ≡ ok bs
  unfolding deferred_batches
  Linked-deferred_batches vault zero next seen [] l d = refl
  Linked-deferred_batches vault (suc left) next seen [] (inl e) d = ground arith
  Linked-deferred_batches vault (suc left) next seen [] (inr e) d =
      rw ((==_iff next none_epoch).1 e, deferred_batches) refl
  Linked-deferred_batches vault zero next seen (b ∷ bs) (_, _, (_, _, _, _, _, (more, em, _))) d =
      ground arith
  Linked-deferred_batches vault (suc left) next seen (b ∷ bs)
        (e, off, (r, er, same, epoch, status, (more, em, l))) (f, d) =
      rw
        (
          not_same next none_epoch off,
          not_seen next seen (subst (λ x. Fresh x seen) e f),
          subst (λ x. fetch_epoch x ≡ ok r) e er,
          parts-matches vault next r same (epoch ∙ e) status,
          Linked-deferred_batches vault left r.next_deferred (next ∷ seen) bs
              (subst (λ x. Linked vault x r.next_deferred bs) (less left more em) l)
              (subst (λ x. Distinct (x ∷ seen) bs) e d),
          deferred_batches,
        )
        (ap (λ x. ok (x ∷ bs)) (sym e))

  -- The batches of an epoch close are exactly the walk along the deferred queue from its head: each the
  -- epoch that the one behind it links to, with a pending record of this vault, pairwise different, up
  -- to the limit or to the end of the queue. The limit is 2, or a number from 1 to 8 that the caller gives.
  pub close_epoch_batches_iff :
      (vault : K) (head : ℕ) (options : Option Number) (bs : List ℕ)
      → (close_epoch_batches same_key fetch_epoch vault head options ≡ ok bs)
        ↔ ((limit : ℕ) × Limit options limit × Collected vault limit head [] bs)
  unfolding close_epoch_batches
  close_epoch_batches_iff vault head options bs = (
    λ h. from_bind (batch_limit options) _ h λ limit el kl.
        (limit, batch_limit-Limit options el, deferred_batches-Collected vault limit head [] kl),
    λ (limit, l, c).
        rw (Limit-batch_limit options limit l)
          (Linked-deferred_batches vault limit head [] bs c.linked c.distinct),
  )
