-- ===== src/Action.antt =====
-- Go code that reads and writes shared memory and may panic: state passing with an outcome. What
-- was written before a panic stays written, so the state comes back beside the panic too.
use cffi_proxy.Base.{◌≡◌, refl, Text}

-- The run-time panics that the code can raise.
pub data Panic : Type 0 where
  nil_dereference nil_map_write slice_bounds : Panic
  message : Text → Panic

pub data Outcome {ℓ} (A : Type ℓ) : Type ℓ where
  ok : A → Outcome A
  panics : Panic → Outcome A

abbrev pub Action : Type 0 → Type 0 → Type 0
Action S A = S → Outcome A × S

module _ {S A : Type 0} where
  abbrev pub pure : A → Action S A
  pure a s = (ok a, s)

  abbrev pub panic : Panic → Action S A
  panic p s = (panics p, s)

  abbrev pub gets : (S → A) → Action S A
  gets f s = (ok (f s), s)

abbrev pub modify : {S : Type 0} → (S → S) → Action S (Unit {0})
modify f s = (ok tt, f s)

-- `defer d()`: `d` runs when the body ends, by a return or by a panic.
abbrev pub defers : {S A : Type 0} → (S → S) → Action S A → Action S A
defers d m s = let (r, s') = m s in (r, d s')

module _ {S A B : Type 0} where
  abbrev pub continue : (A → Action S B) → Outcome A → S → Outcome B × S
  continue f (ok a) s = f a s
  continue f (panics p) s = (panics p, s)

  infixl 5 ◌>>=◌ ◌>>◌
  abbrev pub ◌>>=◌ : Action S A → (A → Action S B) → Action S B
  ◌>>=◌ m f s = let (r, s') = m s in continue f r s'

  abbrev pub ◌>>◌ : Action S A → Action S B → Action S B
  m >> k = m >>= λ _. k

module _ {S A B : Type 0} where
  -- What follows may be exchanged pointwise.
  pub continue_cong :
      (f g : A → Action S B) (x : Outcome A × S)
      → ((a : A) (s : S) → f a s ≡ g a s)
      → continue f x.0 x.1 ≡ continue g x.0 x.1
  continue_cong f g (ok a, s) h = h a s
  continue_cong f g (panics p, s) h = refl

  pub continue_assoc :
      {C : Type 0} (f : A → Action S B) (g : B → Action S C) (x : Outcome A × S)
      → continue g (continue f x.0 x.1).0 (continue f x.0 x.1).1
        ≡ continue (λ a s. continue g (f a s).0 (f a s).1) x.0 x.1
  continue_assoc f g (ok a, s) = refl
  continue_assoc f g (panics p, s) = refl
