-- ===== src/Triggers/Legs/Returns.antt =====
-- The loop over the draws ends at the first salt with a usable commitment: src/triggerOrders.ts.
use fermi_v1_sdk.Base.{
  ℕ, ◌≤◌, ◌≡◌, refl, ◌∙◌, arith, List, [], ◌∷◌, ◌++◌, ok, pos, Number, ◌==◌, All, false,
}
use fermi_v1_sdk.Platform.{Platform}
use fermi_v1_sdk.Triggers.Terms.{TriggerTerms, trigger_terms_commitment}
use fermi_v1_sdk.Triggers.Legs.{with_salt, commit}

positive_not_zero : (n : ℕ) → 1 ≤ n → (n == 0) ≡ false
positive_not_zero n h = ground arith

module _ (W : Platform) (group account : W.PublicKey) (index : Number) where
  abbrev pub CommitsTo : TriggerTerms → ℕ → Type 0
  CommitsTo terms id = trigger_terms_commitment W group account index terms ≡ ok id

  commit-first :
      (terms : TriggerTerms) (id : ℕ) (draws : List ℕ)
      → CommitsTo terms id
      → 1 ≤ id
      → commit W group account index terms draws
        ≡ ok (record { terms = terms; id = id; draws = draws })
  unfolding commit
  commit-first terms id [] e h = rw (e, positive_not_zero id h) refl
  commit-first terms id (d ∷ ds) e h = rw (e, positive_not_zero id h) refl

  commit-again :
      (terms : TriggerTerms) (d : ℕ) (draws : List ℕ)
      → CommitsTo terms 0
      → commit W group account index terms (d ∷ draws)
        ≡ commit W group account index (with_salt terms (pos d)) draws
  unfolding commit
  commit-again terms d draws e = rw (e) refl

  -- As long as the commitment is zero the loop draws another salt, and it stops at the first draw
  -- whose commitment is not zero, with the later draws unused.
  pub commit-returns :
      (terms : TriggerTerms) (skipped : List ℕ) (d : ℕ) (rest : List ℕ) (id : ℕ)
      → CommitsTo terms 0
      → All (λ s. CommitsTo (with_salt terms (pos s)) 0) skipped
      → CommitsTo (with_salt terms (pos d)) id
      → 1 ≤ id
      → commit W group account index terms (skipped ++ d ∷ rest)
        ≡ ok (record { terms = with_salt terms (pos d); id = id; draws = rest })
  commit-returns terms [] d rest id h0 hs hd hid =
      commit-again terms d rest h0 ∙ commit-first (with_salt terms (pos d)) id rest hd hid
  commit-returns terms (s ∷ skipped) d rest id h0 (hs, hss) hd hid =
      commit-again terms s (skipped ++ d ∷ rest) h0
      ∙ commit-returns (with_salt terms (pos s)) skipped d rest id hs hss hd hid
