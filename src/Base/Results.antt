-- ===== src/Base/Results.antt =====
-- A call that may throw, and the chain of such calls. The text is the fixed part of the message.
use Prim.Native.String.{String}
use mathlib.Core.Path.{◌≡◌, refl, sym, ap, ◌∙◌}
use mathlib.Core.Bool.{Bool, true, false}
use mathlib.Core.List.{List, [], ◌∷◌, ◌++◌}

pub data Result {ℓ} (A : Type ℓ) : Type ℓ where
  ok : A → Result A
  err : String → Result A

infixl 5 ◌>>=◌
infixl 5 ◌>>◌
-- The rest of a function is skipped once a call has thrown.
abbrev pub ◌>>=◌ {ℓ κ} : {X : Type ℓ} {Y : Type κ} → Result X → (X → Result Y) → Result Y
err message >>= rest = err message
ok value >>= rest = rest value

abbrev pub ◌>>◌ {ℓ κ} : {X : Type κ} {Y : Type ℓ} → Result X → Result Y → Result Y
first >> rest = first >>= λ _. rest

-- `if (test) throw new Error(message)`
abbrev pub throw_if : Bool → String → Result (Unit {0})
throw_if true message = err message
throw_if false message = ok tt

abbrev pub map_result {ℓ κ} : {A : Type ℓ} {B : Type κ} → (A → Result B) → List A → Result (List B)
map_result f [] = ok []
map_result f (x ∷ xs) = f x >>= λ y. map_result f xs >>= λ ys. ok (y ∷ ys)

abbrev pub IsOk {ℓ} : {A : Type ℓ} → Result A → Type ℓ
IsOk {A} r = (a : A) × (r ≡ ok a)

-- A call that did not throw, handed on to a continuation: its value is a variable in what follows.
pub from_bind {ℓ κ μ} :
    {A : Type ℓ} {B : Type κ} {P : Type μ} (m : Result A) (f : A → Result B) {b : B}
    → (m >>= f) ≡ ok b
    → ((a : A) → m ≡ ok a → f a ≡ ok b → P)
    → P
from_bind (ok a) f h k = k a refl h
from_bind (err e) f h k = cc

pub from_throw {ℓ μ} :
    {B : Type ℓ} {P : Type μ} (t : Bool) (e : String) (m : Result B) {b : B}
    → (throw_if t e >> m) ≡ ok b
    → (t ≡ false → m ≡ ok b → P)
    → P
from_throw true e m h k = cc
from_throw false e m h k = k refl h

abbrev pub ok_or {ℓ} : {A : Type ℓ} → A → Result A → A
ok_or d (ok a) = a
ok_or d (err e) = d

pub ok_injective {ℓ} : {A : Type ℓ} {a b : A} → ok a ≡ ok b → a ≡ b
ok_injective {a} h = ap (ok_or a) h

bind_ok {ℓ} : {A : Type ℓ} (m : Result A) → (m >>= λ a. ok a) ≡ m
bind_ok (ok a) = refl
bind_ok (err e) = refl

-- Appending to the rest of a list whose head is still to be computed.
append_step {ℓ} :
    {A : Type ℓ} (r : Result A) (q p : Result (List A))
    → (r >>= λ y. (q >>= λ ms. p >>= λ ns. ok (ms ++ ns)) >>= λ ys. ok (y ∷ ys))
      ≡ ((r >>= λ y. q >>= λ ys. ok (y ∷ ys)) >>= λ ms. p >>= λ ns. ok (ms ++ ns))
append_step (err e) q p = refl
append_step (ok y) (err e) p = refl
append_step (ok y) (ok ys) (err e) = refl
append_step (ok y) (ok ys) (ok ns) = refl

pub map_result-append {ℓ κ} :
    {A : Type ℓ} {B : Type κ} (f : A → Result B) (ls ks : List A)
    → map_result f (ls ++ ks) ≡ (map_result f ls >>= λ ms. map_result f ks >>= λ ns. ok (ms ++ ns))
map_result-append f [] ks = sym (bind_ok (map_result f ks))
map_result-append f (l ∷ ls) ks =
    ap (λ q. f l >>= λ y. q >>= λ ys. ok (y ∷ ys)) (map_result-append f ls ks)
    ∙ append_step (f l) (map_result f ls) (map_result f ks)
