-- ===== src/Prelude/Eq.antt =====
-- The trait `Eq` of the standard library: a Boolean test that agrees with equality.
use discv.Prelude.{ℕ, ◌≡◌, ◌↔◌, Bool, true, ◌==◌ as nat_eq, ==_iff}

pub record Eq {ℓ} (A : Type ℓ) : Type ℓ where
  pub eq : A → A → Bool
  pub eq_iff : (a b : A) → (eq a b ≡ true) ↔ (a ≡ b)

abbrev pub nat_Eq : Eq ℕ
nat_Eq = record { eq = nat_eq; eq_iff = ==_iff }
