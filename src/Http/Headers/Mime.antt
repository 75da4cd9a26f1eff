-- ===== src/Http/Headers/Mime.antt =====
-- A header library for the tests and witnesses: names get capitals at the start and after dashes.
use cffi_proxy.Base.{
  ℕ, ◌+◌, ◌-◌, ◌≡◌, refl, Bool, true, ◌&&◌, [], ◌∷◌, ◌++◌, Text, codes, text_eq, leb, ◌==◌,
  if◌then◌else◌, arith, some, inl, inr, Bool-cases, eq_of_text_eq,
}
use cffi_proxy.Http.Headers.{
  Header, HeaderLib, lookup, values, store, delete, first_value, lookup-store, lookup-delete,
  AllCanonical, standard_names,
}

capital : Bool → ℕ → ℕ
capital up c =
    if up
    then (if leb b'a' c && leb c b'z' then c - 32 else c)
    else (if leb b'A' c && leb c b'Z' then c + 32 else c)

unfoldable pub capitals : Bool → Text → Text
unfolding capital
capitals up [] = []
capitals up (c ∷ s) = capital up c ∷ capitals (c == b'-') s

capital_idem : (up : Bool) (c : ℕ) → capital up (capital up c) ≡ capital up c
unfolding capital
capital_idem up c = ground arith

capital-dash : (up : Bool) (c : ℕ) → (capital up c == b'-') ≡ (c == b'-')
unfolding capital
capital-dash up c = ground arith

pub capitals_idem : (up : Bool) (s : Text) → capitals up (capitals up s) ≡ capitals up s
unfolding capitals
capitals_idem up [] = refl
capitals_idem up (c ∷ s) = rw (capital-dash up c, capital_idem up c, capitals_idem (c == b'-') s)

abbrev pub canonical_key : Text → Text
canonical_key = capitals true

pub names-AllCanonical : AllCanonical canonical_key standard_names
unfolding capitals codes
names-AllCanonical = (refl, (refl, (refl, (refl, (refl, (refl, (refl, (refl, tt))))))))

pub lookup-add_value :
    (c v k : Text) (h : Header)
    → lookup k (store c (values h c ++ v ∷ []) h)
      ≡ (if text_eq c k then some (values h k ++ v ∷ []) else lookup k h)
lookup-add_value c v k h = elim (Bool-cases (text_eq c k)) [
  | inl same ↦ rw (lookup-store c k (values h c ++ v ∷ []) h, same, eq_of_text_eq c k same)
  | inr other ↦ rw (lookup-store c k (values h c ++ v ∷ []) h, other)
]

abbrev pub mime : HeaderLib
mime = record {
  canonical = canonical_key;
  get = λ h n. first_value (values h (canonical_key n));
  set = λ h n v. store (canonical_key n) (v ∷ []) h;
  add = λ h n v. store (canonical_key n) (values h (canonical_key n) ++ v ∷ []) h;
  del = λ h n. delete (canonical_key n) h;
  canonical_idem = capitals_idem true;
  standard = names-AllCanonical;
  get_lem = λ h n. refl;
  lookup-set = λ h n v k. lookup-store (canonical_key n) k (v ∷ []) h;
  lookup-add = λ h n v k. lookup-add_value (canonical_key n) v k h;
  lookup-del = λ h n k. lookup-delete (canonical_key n) k h;
}
