-- ===== src/Net/Ends.antt =====
-- That the loops of lib/plat/plat_net.c end: however a connection behaves, the rounds that the model
-- allows are enough, and more of them change nothing.
use mcu_sdk.Base.{◌≡◌, refl, Bool, true, false, Option, none, some, if◌then◌else◌}
use mcu_sdk.Net.Socket.{Socket}

-- Two runs of a test whose branches agree.
pub agree-if :
    {A : Type 0} (t : Bool) (x x' y y' : A)
    → (t ≡ true → x ≡ x')
    → (t ≡ false → y ≡ y')
    → (if t then x else y) ≡ (if t then x' else y')
agree-if true x x' y y' h k = h refl
agree-if false x x' y y' h k = k refl

pub agree-elim :
    {A B : Type 0} (o : Option A) (x : B) (f f' : A → B)
    → ((a : A) → o ≡ some a → f a ≡ f' a)
    → elim o as (λ z. B) [ none ↦ x | some a ↦ f a ]
      ≡ elim o as (λ z. B) [ none ↦ x | some a ↦ f' a ]
agree-elim none x f f' h = refl
agree-elim (some a) x f f' h = h a refl
