-- ===== src/Context/Order.antt =====
-- The order of the perp markets in src/context.ts: by index, each once.
use mathlib.Core.List.{Perm}
use mathlib.Core.List.Perm
use fermi_v1_sdk.Base.{ℕ, ◌≤◌, inl, inr, arith, List, [], ◌∷◌, All, leb, leb→le, Bool-cases}
use fermi_v1_sdk.Context.{PerpMarket, insert_market, sort_markets}
use fermi_v1_sdk.Context.Fallbacks.{All-mono}

module _ {K : Type 0} where
  -- No market stands before one with a smaller index.
  abbrev pub IsOrdered : List (PerpMarket K) → Type 0
  IsOrdered [] = Unit
  IsOrdered (m ∷ ms) =
      All (λ (n : PerpMarket K). m.perp_market_index ≤ n.perp_market_index) ms × IsOrdered ms

  insert-All :
      (k : ℕ) (m : PerpMarket K) (ms : List (PerpMarket K))
      → k ≤ m.perp_market_index
      → All (λ (n : PerpMarket K). k ≤ n.perp_market_index) ms
      → All (λ (n : PerpMarket K). k ≤ n.perp_market_index) (insert_market m ms)
  unfolding insert_market
  insert-All k m [] h a = (h, tt)
  insert-All k m (n ∷ ns) h (hn, a) =
      elim (Bool-cases (leb m.perp_market_index n.perp_market_index)) [
        | inl e ↦ rw e (h, (hn, a))
        | inr e ↦ rw e (hn, insert-All k m ns h a)
      ]

  insert-IsOrdered :
      (m : PerpMarket K) (ms : List (PerpMarket K)) → IsOrdered ms → IsOrdered (insert_market m ms)
  unfolding insert_market
  insert-IsOrdered m [] o = (tt, tt)
  insert-IsOrdered m (n ∷ ns) (a, o) =
      elim (Bool-cases (leb m.perp_market_index n.perp_market_index)) [
        | inl e ↦
            let le : m.perp_market_index ≤ n.perp_market_index = leb→le _ _ e in
            rw e ((le, All-mono _ _ ns (λ x h. omega arith) a), (a, o))
        | inr e ↦
            let le : n.perp_market_index ≤ m.perp_market_index = ground arith in
            rw e (insert-All n.perp_market_index m ns le a, insert-IsOrdered m ns o)
      ]

  insert-perm : (m : PerpMarket K) (ms : List (PerpMarket K)) → Perm (insert_market m ms) (m ∷ ms)
  unfolding insert_market
  insert-perm m [] = Perm.refl (m ∷ [])
  insert-perm m (n ∷ ns) = elim (Bool-cases (leb m.perp_market_index n.perp_market_index)) [
    | inl e ↦ rw e (Perm.refl (m ∷ n ∷ ns))
    | inr e ↦ rw e (Perm.trans (Perm.cons n (insert-perm m ns)) (Perm.swap m n ns))
  ]

  pub sort_markets-IsOrdered : (ms : List (PerpMarket K)) → IsOrdered (sort_markets ms)
  unfolding sort_markets
  sort_markets-IsOrdered [] = tt
  sort_markets-IsOrdered (m ∷ ms) = insert-IsOrdered m (sort_markets ms) (sort_markets-IsOrdered ms)

  pub sort_markets-perm : (ms : List (PerpMarket K)) → Perm (sort_markets ms) ms
  unfolding sort_markets
  sort_markets-perm [] = Perm.refl []
  sort_markets-perm (m ∷ ms) =
      Perm.trans (insert-perm m (sort_markets ms)) (Perm.cons m (sort_markets-perm ms))
