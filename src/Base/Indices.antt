-- ===== src/Base/Indices.antt =====
-- Where a byte stands in a text.
use Prim.Native.Nat.{ℕ, ◌<◌}
use mathlib.Core.Path.{◌≡◌, refl}
use mathlib.Core.Logic.{inl, inr}
use mathlib.Core.Bool.{false, ◌||◌}
use mathlib.Core.Option.{none, some}
use mathlib.Core.List.{[], ◌∷◌, ◌++◌}
use native.Mathlib.Omega.{arith}
use cffi_proxy.Base.Tests.{Option-cases}
use cffi_proxy.Base.Lists.{length}
use cffi_proxy.Base.Strings.{Text, index_of, last_index_of, contains, remove}

pub index_of-append :
    (c : ℕ) (s t : Text) → contains s c ≡ false → index_of c (s ++ c ∷ t) ≡ some (length s)
unfolding index_of contains
index_of-append c [] t h = ground arith
index_of-append c (d ∷ s) t h = ground (arith, index_of-append c s t)

pub contains-append : (c : ℕ) (s t : Text) → contains (s ++ t) c ≡ (contains s c || contains t c)
unfolding contains
contains-append c [] t = refl
contains-append c (d ∷ s) t = ground (arith, contains-append c s t)

pub remove-append : (c : ℕ) (s t : Text) → remove c (s ++ t) ≡ remove c s ++ remove c t
unfolding remove
remove-append c [] t = refl
remove-append c (d ∷ s) t = ground (arith, remove-append c s t)

pub remove_absent : (c : ℕ) (s : Text) → contains s c ≡ false → remove c s ≡ s
unfolding remove contains
remove_absent c [] h = refl
remove_absent c (d ∷ s) h = ground (arith, remove_absent c s)

pub last_index_absent : (c : ℕ) (s : Text) → contains s c ≡ false → last_index_of c s ≡ none
unfolding last_index_of contains
last_index_absent c [] h = refl
last_index_absent c (d ∷ s) h = ground (arith, last_index_absent c s)

pub last_index-append :
    (c : ℕ) (s t : Text) → contains t c ≡ false → last_index_of c (s ++ t) ≡ last_index_of c s
unfolding last_index_of
last_index-append c [] t h = last_index_absent c t h
last_index-append c (d ∷ s) t h = ground (arith, last_index-append c s t h)

pub last_index-snoc :
    (c : ℕ) (s t : Text) → contains t c ≡ false → last_index_of c (s ++ c ∷ t) ≡ some (length s)
unfolding last_index_of
last_index-snoc c [] t h = ground (arith, last_index_absent c t h)
last_index-snoc c (d ∷ s) t h = ground (arith, last_index-snoc c s t h)

pub last_index-lt : (c : ℕ) (s : Text) (i : ℕ) → last_index_of c s ≡ some i → i < length s
unfolding last_index_of
last_index-lt c [] i h = ground arith
last_index-lt c (d ∷ s) i h = elim (Option-cases (last_index_of c s)) [
  | inl e ↦ ground (arith, e)
  | inr (j, e) ↦ ground (arith, e, last_index-lt c s j e)
]
