-- ===== src/Signer/Sorting.antt =====
-- goproxy/signer.go, hashSorted: the elements of the list matter, and not their order.
use mathlib.Core.List.{Perm, Permᴰ, perm-append_right_iff}
use mathlib.Core.List.Perm
use mathlib.Core.Logic.{∥∥₁_elim}
use native.Mathlib.Decide.{ℕ_discrete}
use cffi_proxy.Base.{
  true, false, ◌≡◌, refl, ap, sym, subst, ◌∙◌, ◌↔◌, List, [], ◌∷◌, Text, Bool-cases, inl, inr,
  arith, Bool, Option, none, some, not, ◌&&◌, ◌++◌, all, contains, codes, length, length-append,
}
use cffi_proxy.Auth.{split_first}
use cffi_proxy.Auth.Gate.{split_first-join}
use cffi_proxy.Signer.{text_le, insert, sort, hash_sorted, host_seed, with_commas, Signing}

text_le_total : (s t : Text) → text_le s t ≡ false → text_le t s ≡ true
unfolding text_le
text_le_total [] t h = cc
text_le_total (c ∷ s) [] h = refl
text_le_total (c ∷ s) (d ∷ t) h = ground (arith, text_le_total s t)

text_le_antisymm : (s t : Text) → text_le s t ≡ true → text_le t s ≡ true → s ≡ t
unfolding text_le
text_le_antisymm [] [] h k = refl
text_le_antisymm [] (d ∷ t) h k = cc
text_le_antisymm (c ∷ s) [] h k = cc
text_le_antisymm (c ∷ s) (d ∷ t) h k = ground (arith, text_le_antisymm s t)

text_le_trans : (s t u : Text) → text_le s t ≡ true → text_le t u ≡ true → text_le s u ≡ true
unfolding text_le
text_le_trans [] t u h k = refl
text_le_trans (c ∷ s) [] u h k = cc
text_le_trans (c ∷ s) (d ∷ t) [] h k = cc
text_le_trans (c ∷ s) (d ∷ t) (e ∷ u) h k = ground (arith, text_le_trans s t u)

insert_comm : (s t : Text) (us : List Text) → insert s (insert t us) ≡ insert t (insert s us)
unfolding insert
insert_comm s t [] = ground (arith, text_le_total s t, text_le_total t s, text_le_antisymm s t)
insert_comm s t (u ∷ us) = ground (
  arith,
  insert_comm s t us,
  text_le_total s t,
  text_le_total t s,
  text_le_antisymm s t,
  text_le_trans s t u,
  text_le_trans t s u,
  text_le_total s u,
  text_le_total t u,
)

sort-permᴰ : {ss ts : List Text} → Permᴰ ss ts → sort ss ≡ sort ts
unfolding sort
sort-permᴰ Permᴰ.nil = refl
sort-permᴰ (Permᴰ.cons {a = a} {b = b} e p) = rw e (ap (insert b) (sort-permᴰ p))
sort-permᴰ (Permᴰ.swap {a = a} {b = b} {a' = a'} {b' = b'} {l = l} e f) =
    rw (e, f) (insert_comm b' a' (sort l))
sort-permᴰ (Permᴰ.trans p q) = sort-permᴰ p ∙ sort-permᴰ q

insert-perm : (s : Text) (ss : List Text) → Perm (insert s ss) (s ∷ ss)
unfolding insert
insert-perm s [] = Perm.rfl
insert-perm s (t ∷ ts) = elim (Bool-cases (text_le s t)) [
  | inl le ↦ rw le Perm.rfl
  | inr gt ↦ rw gt (Perm.trans (Perm.cons t (insert-perm s ts)) (Perm.swap s t ts))
]

sort-perm : (ss : List Text) → Perm (sort ss) ss
unfolding sort
sort-perm [] = Perm.rfl
sort-perm (s ∷ ss) = Perm.trans (insert-perm s (sort ss)) (Perm.cons s (sort-perm ss))

Texts-set : IsSet (List Text)
Texts-set = hlevel (ℕ_discrete)

sort_of_perm : {ss ts : List Text} → Perm ss ts → sort ss ≡ sort ts
sort_of_perm {ss} {ts} p = ∥∥₁_elim p (Texts-set (sort ss) (sort ts)) sort-permᴰ

-- Two lists are sorted into the same list exactly when each is a permutation of the other.
pub sort_iff : (ss ts : List Text) → (sort ss ≡ sort ts) ↔ Perm ss ts
sort_iff ss ts = (
  λ e. Perm.trans (Perm.symm (sort-perm ss)) (subst (λ us. Perm us ts) (sym e) (sort-perm ts)),
  sort_of_perm,
)

-- Hosts without a comma, which separates them in what is digested.
abbrev pub no_commas : List Text → Bool
no_commas = all (λ s. not (contains s 44))

no_commas-insert :
    (s : Text) (ss : List Text) → no_commas (insert s ss) ≡ (not (contains s 44) && no_commas ss)
unfolding insert
no_commas-insert s [] = refl
no_commas-insert s (t ∷ ts) = ground (arith, no_commas-insert s ts)

no_commas-sort : (ss : List Text) → no_commas (sort ss) ≡ no_commas ss
unfolding sort
no_commas-sort [] = refl
no_commas-sort (s ∷ ss) = ground (arith, no_commas-insert s (sort ss), no_commas-sort ss)

no_commas-append : (ss ts : List Text) → no_commas (ss ++ ts) ≡ (no_commas ss && no_commas ts)
no_commas-append [] ts = refl
no_commas-append (s ∷ ss) ts = ground (arith, no_commas-append ss ts)

abbrev parts_of : Option (Text × Text) → Text × Text
parts_of none = ([], [])
parts_of (some x) = x

with_commas_injective :
    (ss ts : List Text)
    → no_commas ss ≡ true
    → no_commas ts ≡ true
    → with_commas ss ≡ with_commas ts
    → ss ≡ ts
unfolding with_commas codes
with_commas_injective [] [] h k e = refl
with_commas_injective [] (t ∷ ts) h k e =
    absurd (omega (arith, ap length e, length-append t (44 ∷ with_commas ts)))
with_commas_injective (s ∷ ss) [] h k e =
    absurd (omega (arith, ap length e, length-append s (44 ∷ with_commas ss)))
with_commas_injective (s ∷ ss) (t ∷ ts) h k e =
    let split =
      sym (split_first-join 44 s (with_commas ss) (ground arith))
      ∙ ap (split_first 44) e
      ∙ split_first-join 44 t (with_commas ts) (ground arith) in
    let rest =
      with_commas_injective ss ts (ground arith) (ground arith) (ap (λ o. (parts_of o).1) split) in
    ap (λ u. u ∷ ss) (ap (λ o. (parts_of o).0) split) ∙ ap (λ us. t ∷ us) rest

-- What hashSorted digests for a list of hosts.
abbrev message : Signing → List Text → Text
message signing hosts = host_seed (record signing { sha1 = λ t. t }) hosts

-- The seed of a certificate's key is the digest of a message that depends on which hosts it is for,
-- with their multiplicities, and on nothing else of them: if no host and not the runtime version has
-- a comma, two lists of hosts have the same message exactly when they are permutations of each other.
pub host_seed-perm :
    (signing : Signing) (hosts hosts' : List Text)
    → contains signing.runtime_version 44 ≡ false
    → no_commas hosts ≡ true
    → no_commas hosts' ≡ true
    → (host_seed signing hosts ≡ signing.sha1 (message signing hosts))
      × ((message signing hosts ≡ message signing hosts') ↔ Perm hosts hosts')
unfolding host_seed hash_sorted codes contains
host_seed-perm signing hosts hosts' v h h' =
    let extra = codes ":goroxy1" ∷ (codes ":" ++ signing.runtime_version) ∷ [] in
    let plain : (us : List Text) → no_commas us ≡ true → no_commas (sort (us ++ extra)) ≡ true =
      λ us k. no_commas-sort (us ++ extra) ∙ no_commas-append us extra ∙ rw (k, v) refl in
    (
      refl,
      (
        λ e. (perm-append_right_iff extra).0 (
            (sort_iff (hosts ++ extra) (hosts' ++ extra)).0 (
              with_commas_injective (sort (hosts ++ extra)) (sort (hosts' ++ extra)) (plain hosts h)
                (plain hosts' h') e)),
        λ p. ap with_commas (sort_of_perm (Perm.append_right extra p)),
      ),
    )
