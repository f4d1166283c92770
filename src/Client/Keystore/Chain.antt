-- ===== src/Client/Keystore/Chain.antt =====
-- Chains of steps that may fail, taken apart.
use sneakernet.Prelude.{◌≡◌, refl, Option, none, some, ◌⊎◌, inl, inr}
use sneakernet.Client.Keystore.{Fault, ◌>>!◌, or_fault}

pub >>!-eq-inr :
    {A B : Type 0} (m : Fault ⊎ A) (f : A → Fault ⊎ B) {b : B}
    → (m >>! f) ≡ inr b
    → (a : A) × (m ≡ inr a) × (f a ≡ inr b)
>>!-eq-inr (inl e) f h = cc
>>!-eq-inr (inr a) f h = (a, refl, h)

pub or_fault-eq-inr :
    {A : Type 0} (e : Fault) (o : Option A) {a : A} → or_fault e o ≡ inr a → o ≡ some a
or_fault-eq-inr e none h = cc
or_fault-eq-inr e (some b) h = cc

pub inr_injective : {A : Type 0} {a b : A} → ◌≡◌ {A = Fault ⊎ A} (inr a) (inr b) → a ≡ b
inr_injective h = cc

pub Fault-cases :
    {A : Type 0} (r : Fault ⊎ A) → ((e : Fault) × (r ≡ inl e)) ⊎ ((a : A) × (r ≡ inr a))
Fault-cases (inl e) = inl (e, refl)
Fault-cases (inr a) = inr (a, refl)
