-- ===== src/Prelude/Outcome.antt =====
-- The outcome of Rust code that may panic: an index out of bounds, an `unwrap` or `expect` of
-- `None`, a failed `assert!`. Machine integers keep their wrap-around, by the moduli below.
use Prim.Native.Nat.{ℕ, ◌^◌}
use mathlib.Core.Path.{◌≡◌, refl, ap}
use mathlib.Core.List.{List}
use mathlib.Core.Option.{Option, none, some}
use webrender.Prelude.Lists.{get_elem?}

pub data Run {ℓ} (A : Type ℓ) : Type ℓ where
  done : A → Run A
  panic : Run A

infixl 5 ◌>>=◌
abbrev pub ◌>>=◌ {ℓ κ} : {A : Type ℓ} {B : Type κ} → Run A → (A → Run B) → Run B
done a >>= f = f a
panic >>= f = panic

-- `Option::unwrap`
abbrev pub unwrap {ℓ} : {A : Type ℓ} → Option A → Run A
unwrap none = panic
unwrap (some a) = done a

-- `v[i]`
abbrev pub index_at {ℓ} : {A : Type ℓ} → List A → ℕ → Run A
index_at xs i = unwrap (get_elem? xs i)

abbrev pub u32_mod : ℕ
u32_mod = 2 ^ 32

-- `usize` on a 64-bit target.
abbrev pub usize_mod : ℕ
usize_mod = 2 ^ 64

abbrev done_or {ℓ} : {A : Type ℓ} → A → Run A → A
done_or a (done b) = b
done_or a panic = a

pub done-injective {ℓ} : {A : Type ℓ} {a b : A} → done a ≡ done b → a ≡ b
done-injective {a = a'} h = ap (done_or a') h

pub >>=-eq-done {ℓ κ} :
    {A : Type ℓ} {B : Type κ} (m : Run A) (f : A → Run B) {b : B}
    → (m >>= f) ≡ done b
    → (a : A) × (m ≡ done a) × (f a ≡ done b)
>>=-eq-done (done a) f h = (a, refl, h)
>>=-eq-done panic f h = cc

-- What holds of the outcome, if there is one.
abbrev pub Ensures {ℓ κ} : {A : Type ℓ} → (A → Type κ) → Run A → Type κ
Ensures P (done a) = P a
Ensures P panic = Unit

pub Ensures->>= {ℓ κ μ ν} :
    {A : Type ℓ} {B : Type κ} (P : A → Type μ) (Q : B → Type ν) (m : Run A) (f : A → Run B)
    → Ensures P m
    → ((a : A) → P a → Ensures Q (f a))
    → Ensures Q (m >>= f)
Ensures->>= P Q (done a) f h k = k a h
Ensures->>= P Q panic f h k = tt

pub Ensures_done {ℓ κ} :
    {A : Type ℓ} (P : A → Type κ) (m : Run A) {a : A} → Ensures P m → m ≡ done a → P a
Ensures_done P m {a} h e = rw e at h

pub Ensures-bind {ℓ κ μ} :
    {A : Type ℓ} {B : Type κ} (Q : B → Type μ) (m : Run A) (f : A → Run B)
    → ((a : A) → m ≡ done a → Ensures Q (f a))
    → Ensures Q (m >>= f)
Ensures-bind Q (done a) f k = k a refl
Ensures-bind Q panic f k = tt

pub index_at-eq-done {ℓ} :
    {A : Type ℓ} (xs : List A) (i : ℕ) {a : A} → index_at xs i ≡ done a → get_elem? xs i ≡ some a
index_at-eq-done xs i {a} h =
    elim (get_elem? xs i) as (λ o. unwrap o ≡ done a → o ≡ some a) [
      | none ↦ λ e. cc
      | some b ↦ λ e. cc
    ]
      h

pub Ensures-mono {ℓ κ μ} :
    {A : Type ℓ} (P : A → Type κ) (Q : A → Type μ) (m : Run A)
    → ((a : A) → P a → Q a)
    → Ensures P m
    → Ensures Q m
Ensures-mono P Q (done a) f h = f a h
Ensures-mono P Q panic f h = tt
