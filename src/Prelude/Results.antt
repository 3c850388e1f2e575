-- ===== src/Prelude/Results.antt =====
-- Rust's `Result`, with a third case for a panic (an index out of range, a failed `expect`).
use Prim.Native.Nat.{ℕ}
use mathlib.Core.Path.{◌≡◌, refl, ap}
use mathlib.Core.Logic.{◌⊎◌, inl, inr}
use mathlib.Core.Bool.{Bool, true, false}
use mathlib.Core.List.{List}
use mathlib.Core.Option.{Option, none, some}
use native.Mathlib.Omega.{arith}
use outbe_circuits.Prelude.Lists.{get_elem?}

pub data Result {ℓ} (E : Type 0) (A : Type ℓ) : Type ℓ where
  panic : Result E A
  err : E → Result E A
  ok : A → Result E A

-- `if !test { return Err(e) }`
abbrev pub guard : {E : Type 0} → Bool → E → Result E (Unit {0})
guard false error = err error
guard true error = ok tt

abbrev pub map_err {ℓ} : {E F : Type 0} {A : Type ℓ} → (E → F) → Result E A → Result F A
map_err f (ok a) = ok a
map_err f (err e) = err (f e)
map_err f panic = panic

-- `option.ok_or(e)`
abbrev pub ok_or {ℓ} : {E : Type 0} {A : Type ℓ} → E → Option A → Result E A
ok_or e none = err e
ok_or e (some a) = ok a

-- `option.unwrap()`, `option.expect(..)`
abbrev pub expect {ℓ} : {E : Type 0} {A : Type ℓ} → Option A → Result E A
expect none = panic
expect (some a) = ok a

-- `xs[i]`
abbrev pub index {ℓ} : {E : Type 0} {A : Type ℓ} → List A → ℕ → Result E A
index xs i = expect (get_elem? xs i)

-- `assert!(test)`
abbrev pub assert : {E : Type 0} → Bool → Result E (Unit {0})
assert true = ok tt
assert false = panic

infixl 5 ◌>>=◌ ◌>>◌
abbrev pub ◌>>=◌ {ℓ κ} :
    {E : Type 0} {A : Type ℓ} {B : Type κ} → Result E A → (A → Result E B) → Result E B
panic >>= f = panic
err e >>= f = err e
ok a >>= f = f a

-- `first?; second`
abbrev pub ◌>>◌ {ℓ} : {E : Type 0} {B : Type ℓ} → Result E (Unit {0}) → Result E B → Result E B
first >> second = first >>= (λ _. second)

pub ok_inj : {E A : Type 0} {a b : A} → ◌≡◌ {A = Result E A} (ok a) (ok b) → a ≡ b
ok_inj h = grind arith

pub err_ok : {E A : Type 0} {e : E} {b : A} → ◌≡◌ {A = Result E A} (err e) (ok b) → ⊥
err_ok h = cc

-- A sequence that succeeds has run both its parts.
pub bind_ok :
    {E A B G : Type 0} {f : A → Result E B} {b : B} (m : Result E A)
    → m >>= f ≡ ok b
    → ((a : A) → m ≡ ok a → f a ≡ ok b → G)
    → G
bind_ok (ok a) h k = k a refl h
bind_ok (err e) h k = absurd (err_ok h)
bind_ok panic h k = cc

-- `guard` lets through what passes its test.
pub guard-eq-ok : {E : Type 0} (b : Bool) (e : E) {u : Unit {0}} → guard b e ≡ ok u → b ≡ true
guard-eq-ok true e h = refl
guard-eq-ok false e h = cc

pub ok_or-eq-ok : {E A : Type 0} (e : E) (o : Option A) {a : A} → ok_or e o ≡ ok a → o ≡ some a
ok_or-eq-ok e none h = cc
ok_or-eq-ok e (some a) h = grind arith

pub Result-cases {ℓ} :
    {E : Type 0} {A : Type ℓ} (m : Result E A)
    → ((a : A) × (m ≡ ok a)) ⊎ (((e : E) × (m ≡ err e)) ⊎ (m ≡ panic))
Result-cases (ok a) = inl (a, refl)
Result-cases (err e) = inr (inl (e, refl))
Result-cases panic = inr (inr refl)

pub expect-eq-ok : {E A : Type 0} (o : Option A) {a : A} → expect {E = E} o ≡ ok a → o ≡ some a
expect-eq-ok none h = cc
expect-eq-ok (some a) h = grind arith

pub assert-eq-ok : {E : Type 0} (b : Bool) {u : Unit {0}} → assert {E = E} b ≡ ok u → b ≡ true
assert-eq-ok true h = refl
assert-eq-ok false h = cc

pub some_inj {ℓ} : {A : Type ℓ} {a b : A} → ◌≡◌ {A = Option A} (some a) (some b) → a ≡ b
some_inj {A} {a} e = ap (λ (o : Option A). elim o [ none ↦ a | some x ↦ x ]) e
