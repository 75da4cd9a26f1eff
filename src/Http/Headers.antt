-- ===== src/Http/Headers.antt =====
-- http.Header, a map[string][]string: Go's map operations written out, and the methods of the
-- library behind an interface. Header names are compared as the library's canonical keys.
pub mod Mime
unfoldable pub use cffi_proxy.Base.Maps.{lookup, store, delete}
pub use cffi_proxy.Base.Maps.{lookup-store, lookup-delete}
use cffi_proxy.Base.{
  ◌≡◌, Option, none, some, List, [], ◌∷◌, ◌++◌, Text, codes, text_eq, if◌then◌else◌, arith,
  text_eq_iff,
}

-- The order of the entries is the order in which `range` visits them.
abbrev pub Header : Type 0
Header = List (Text × List Text)

abbrev pub or_empty : Option (List Text) → List Text
or_empty none = []
or_empty (some vs) = vs

-- h[k], nil for a missing key.
abbrev pub values : Header → Text → List Text
values h k = or_empty (lookup k h)

abbrev pub first_value : List Text → Text
first_value [] = []
first_value (v ∷ vs) = v

-- The header names that the code writes out, all in canonical form.
abbrev pub standard_names : List Text
standard_names =
    codes "Accept-Encoding"
    ∷ codes "Proxy-Connection"
    ∷ codes "Proxy-Authenticate"
    ∷ codes "Proxy-Authorization"
    ∷ codes "Connection"
    ∷ codes "Content-Length"
    ∷ codes "Content-Type"
    ∷ codes "Transfer-Encoding"
    ∷ []

abbrev pub AllCanonical : (Text → Text) → List Text → Type 0
AllCanonical canonical [] = Unit
AllCanonical canonical (n ∷ ns) = (canonical n ≡ n) × AllCanonical canonical ns

-- The methods of http.Header, as its documentation describes them: names are canonicalised.
pub record HeaderLib : Type 0 where
  pub canonical : Text → Text
  pub get : Header → Text → Text
  pub set : Header → Text → Text → Header
  pub add : Header → Text → Text → Header
  pub del : Header → Text → Header
  pub canonical_idem : (n : Text) → canonical (canonical n) ≡ canonical n
  pub standard : AllCanonical canonical standard_names
  pub get_lem : (h : Header) (n : Text) → get h n ≡ first_value (values h (canonical n))
  pub lookup-set :
      (h : Header) (n v k : Text)
      → lookup k (set h n v) ≡ (if text_eq (canonical n) k then some (v ∷ []) else lookup k h)
  pub lookup-add :
      (h : Header) (n v k : Text)
      → lookup k (add h n v)
        ≡ (if text_eq (canonical n) k then some (values h k ++ v ∷ []) else lookup k h)
  pub lookup-del :
      (h : Header) (n k : Text)
      → lookup k (del h n) ≡ (if text_eq (canonical n) k then none else lookup k h)

-- A header map that may be nil reads as an empty one, and deleting from it does nothing.
abbrev pub header_of : Option Header → Header
header_of none = []
header_of (some h) = h

abbrev pub drop_header : HeaderLib → Option Header → Text → Option Header
drop_header lib none n = none
drop_header lib (some h) n = some (lib.del h n)
