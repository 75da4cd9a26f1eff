-- ===== src/Transport/Connection/Counting.antt =====
-- Sums over the callers of a connection.
use native.Mathlib.Decide.{ℕ_discrete}
use cffi_proxy.Base.{ℕ, zero, suc, ◌+◌, ◌<◌, ◌≤◌, ◌≡◌, ap, arith}
use cffi_proxy.Http.World.{update}
use cffi_proxy.Transport.Connection.{CallerPc}

-- The weights of the first `n` callers.
abbrev pub total : (CallerPc → ℕ) → ℕ → (ℕ → CallerPc) → ℕ
total weight zero pc = 0
total weight (suc n) pc = weight (pc n) + total weight n pc

module _ (weight : CallerPc → ℕ) where
  total-update_above :
      (n : ℕ) (pc : ℕ → CallerPc) (i : ℕ) (p : CallerPc)
      → n ≤ i
      → total weight n (update pc i p) ≡ total weight n pc
  total-update_above zero pc i p h = omega arith
  total-update_above (suc n) pc i p h = ground (arith, total-update_above n pc i p (omega arith))

  pub total-update :
      (n : ℕ) (pc : ℕ → CallerPc) (i : ℕ) (p : CallerPc)
      → i < n
      → total weight n (update pc i p) + weight (pc i) ≡ total weight n pc + weight p
  total-update zero pc i p h = absurd (omega arith)
  total-update (suc n) pc i p h = elim (ℕ_discrete i n) [
    | yes e ↦ ground (arith, e, total-update_above n pc i p (omega (arith, e)), ap pc e)
    | no d ↦ ground (arith, d, total-update n pc i p (omega (arith, d)))
  ]

  pub total_zero : (n : ℕ) (p : CallerPc) → weight p ≡ 0 → total weight n (λ i. p) ≡ 0
  total_zero zero p h = omega arith
  total_zero (suc n) p h = omega (arith, total_zero n p h)

  pub weight-le-total :
      (n : ℕ) (pc : ℕ → CallerPc) (i : ℕ) → i < n → weight (pc i) ≤ total weight n pc
  weight-le-total zero pc i h = absurd (omega arith)
  weight-le-total (suc n) pc i h = elim (ℕ_discrete i n) [
    | yes e ↦ ground (arith, ap pc e)
    | no d ↦ omega (arith, weight-le-total n pc i (omega (arith, d)))
  ]

  pub weights-le-total :
      (n : ℕ) (pc : ℕ → CallerPc) (i j : ℕ)
      → i < j
      → j < n
      → weight (pc i) + weight (pc j) ≤ total weight n pc
  weights-le-total zero pc i j d h = absurd (omega arith)
  weights-le-total (suc n) pc i j d h = elim (ℕ_discrete j n) [
    | yes e ↦ ground (arith, ap pc e, weight-le-total n pc i (omega (arith, e)))
    | no k ↦ omega (arith, weights-le-total n pc i j d (omega (arith, k)))
  ]
