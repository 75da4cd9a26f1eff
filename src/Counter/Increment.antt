-- ===== src/Counter/Increment.antt =====
-- The counter as a number, least significant byte first.
use native.Mathlib.Nat.{mod-eq_of_lt, mod_self}
use cffi_proxy.Base.{
  ℕ, ◌+◌, ◌*◌, ◌%◌, ◌<◌, ◌≡◌, refl, sym, ap, ◌∙◌, ◌⊎◌, inl, inr, Text, [], ◌∷◌, length, arith,
}
use cffi_proxy.Counter.{increment}

abbrev pub value : Text → ℕ
value [] = 0
value (b ∷ bs) = b + 256 * value bs

abbrev pub AllBytes : Text → Type 0
AllBytes [] = Unit
AllBytes (b ∷ bs) = (b < 256) × AllBytes bs

abbrev pub modulus : Text → ℕ
modulus [] = 1
modulus (b ∷ bs) = 256 * modulus bs

value-lt : (bs : Text) → AllBytes bs → value bs < modulus bs
value-lt [] h = omega arith
value-lt (b ∷ bs) h = omega (arith, value-lt bs h.1)

pub length-increment : (bs : Text) → length (increment bs) ≡ length bs
unfolding increment
length-increment [] = refl
length-increment (b ∷ bs) = ground (arith, length-increment bs)

increment-AllBytes : (bs : Text) → AllBytes bs → AllBytes (increment bs)
unfolding increment
increment-AllBytes [] h = h
increment-AllBytes (b ∷ bs) h = ground (arith, increment-AllBytes bs h.1)

increment_cases :
    (bs : Text)
    → AllBytes bs
    → ((value bs + 1 < modulus bs) × (value (increment bs) ≡ value bs + 1))
      ⊎ ((value bs + 1 ≡ modulus bs) × (value (increment bs) ≡ 0))
unfolding increment
increment_cases [] h = inr (omega arith, refl)
increment_cases (b ∷ bs) h = ground (arith, increment_cases bs h.1, value-lt bs h.1)

mod_cases : (a b m : ℕ) → ((a + 1 < m) × (b ≡ a + 1)) ⊎ ((a + 1 ≡ m) × (b ≡ 0)) → b ≡ (a + 1) % m
mod_cases a b m (inl (h, e)) = e ∙ sym (mod-eq_of_lt h)
mod_cases a b m (inr (h, e)) = e ∙ sym (ap (λ (k : ℕ). k % m) h ∙ mod_self m)

-- The increment of a list of bytes adds one, modulo 256 to the number of bytes; the bytes stay bytes and their number
-- stays the same.
pub value-increment :
    (bs : Text)
    → AllBytes bs
    → (value (increment bs) ≡ (value bs + 1) % modulus bs)
      × AllBytes (increment bs)
      × (length (increment bs) ≡ length bs)
value-increment bs h = (
  mod_cases (value bs) (value (increment bs)) (modulus bs) (increment_cases bs h),
  increment-AllBytes bs h,
  length-increment bs,
)
