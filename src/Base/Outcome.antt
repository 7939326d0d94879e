-- ===== src/Base/Outcome.antt =====
-- What a call of the program ends in: a result, an `exit` with its code, or a read that waits for
-- a datagram that is not there.
use Prim.Native.Nat.{ℕ}
use mathlib.Core.Path.{◌≡◌, subst}

pub data Outcome {ℓ} (A : Type ℓ) : Type ℓ where
  done : A → Outcome A
  exits : ℕ → Outcome A
  blocks : Outcome A

-- The code that stands for a read or a write outside an array, of which C says nothing: the model
-- stops there.
abbrev pub overrun : ℕ
overrun = 139

infixl 5 ◌>>=◌ ◌>>◌
abbrev pub ◌>>=◌ {ℓ κ} : {A : Type ℓ} {B : Type κ} → Outcome A → (A → Outcome B) → Outcome B
done a >>= f = f a
exits n >>= f = exits n
blocks >>= f = blocks

abbrev pub ◌>>◌ {ℓ κ} : {A : Type ℓ} {B : Type κ} → Outcome A → Outcome B → Outcome B
m >> k = m >>= λ _. k

-- `P` holds of the result, if there is one.
abbrev pub Holds {ℓ κ} : {A : Type ℓ} → (A → Type κ) → Outcome A → Type κ
Holds P (done a) = P a
Holds P (exits n) = Unit
Holds P blocks = Unit

pub >>=-Holds {ℓ κ μ} :
    {A : Type ℓ} {B : Type κ} (P : A → Type μ) (Q : B → Type μ) (m : Outcome A) (f : A → Outcome B)
    → Holds P m
    → ((a : A) → P a → Holds Q (f a))
    → Holds Q (m >>= f)
>>=-Holds P Q (done a) f h k = k a h
>>=-Holds P Q (exits n) f h k = tt
>>=-Holds P Q blocks f h k = tt

pub done-Holds {ℓ κ} :
    {A : Type ℓ} (P : A → Type κ) (m : Outcome A) {a : A} → Holds P m → m ≡ done a → P a
done-Holds P m h e = subst (Holds P) e h
