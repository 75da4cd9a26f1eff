-- ===== src/Proxy/Headers/Copy.antt =====
-- What copyHeaders leaves under each header name.
use cffi_proxy.Base.{
  ◌≡◌, sym, ap, Bool, true, false, none, some, List, [], ◌∷◌, ◌++◌, append-nil, append_assoc, Text,
  text_eq, text_eq_iff, if◌then◌else◌, arith, Bool-cases, Option-cases, inl, inr, eq_of_text_eq,
}
use cffi_proxy.Http.Headers.{Header, HeaderLib, lookup, values}
use cffi_proxy.Proxy.Headers.{clear_headers, add_values, add_headers, copy_headers}

-- The values of all entries whose name is another spelling of `k`.
abbrev pub gathered : HeaderLib → Header → Text → List Text
gathered lib [] k = []
gathered lib ((j, vs) ∷ h) k = (if text_eq (lib.canonical j) k then vs else []) ++ gathered lib h k

module _ (lib : HeaderLib) (k : Text) where
  clear_headers-none :
      (entries dst : Header) → lookup k dst ≡ none → lookup k (clear_headers lib entries dst) ≡ none
  unfolding clear_headers
  clear_headers-none [] dst h = h
  clear_headers-none ((j, vs) ∷ rest) dst h =
      clear_headers-none rest (lib.del dst j) (ground (arith, lib.lookup-del dst j k))

  clear_headers-some :
      (entries dst : Header) {vs : List Text}
      → lib.canonical k ≡ k
      → lookup k entries ≡ some vs
      → lookup k (clear_headers lib entries dst) ≡ none
  unfolding clear_headers lookup
  clear_headers-some [] dst c h = cc
  clear_headers-some ((j, ws) ∷ rest) dst {vs} c h = elim (Bool-cases (text_eq j k)) [
    | inl same ↦ clear_headers-none rest (lib.del dst j) (
        ground (
          arith,
          lib.lookup-del dst j k,
          ap lib.canonical (eq_of_text_eq j k same),
          text_eq_iff (lib.canonical j) k,
        ))
    | inr other ↦ clear_headers-some rest (lib.del dst j) {vs = vs} c (ground arith)
  ]

  lookup-clear_headers :
      (dst : Header) → lib.canonical k ≡ k → lookup k (clear_headers lib dst dst) ≡ none
  lookup-clear_headers dst c = elim (Option-cases (lookup k dst)) [
    | inl e ↦ clear_headers-none dst dst e
    | inr (vs, e) ↦ clear_headers-some dst dst {vs = vs} c e
  ]

  values-add_values :
      (j : Text) (vs : List Text) (dst : Header)
      → values (add_values lib j vs dst) k
        ≡ values dst k ++ (if text_eq (lib.canonical j) k then vs else [])
  unfolding add_values
  values-add_values j [] dst = ground (arith, append-nil (values dst k))
  values-add_values j (v ∷ vs) dst = elim (Bool-cases (text_eq (lib.canonical j) k)) [
    | inl same ↦
        rw (values-add_values j vs (lib.add dst j v), lib.lookup-add dst j v k, same)
          (append_assoc (values dst k) (v ∷ []) vs)
    | inr other ↦ rw (values-add_values j vs (lib.add dst j v), lib.lookup-add dst j v k, other)
  ]

  values-add_headers :
      (src dst : Header) → values (add_headers lib src dst) k ≡ values dst k ++ gathered lib src k
  unfolding add_headers
  values-add_headers [] dst = sym (append-nil _)
  values-add_headers ((j, vs) ∷ src) dst =
      rw (values-add_headers src (add_values lib j vs dst), values-add_values j vs dst)
        (append_assoc (values dst k) (if text_eq (lib.canonical j) k then vs else [])
          (gathered lib src k))

  -- Under a canonical name, the copy has the values that were there before if they are kept, then
  -- those of the source under any spelling of the name, in order, and nothing else.
  pub values-copy_headers :
      (dst src : Header) (keep : Bool)
      → lib.canonical k ≡ k
      → values (copy_headers lib dst src keep) k
        ≡ (if keep then values dst k else []) ++ gathered lib src k
  unfolding copy_headers
  values-copy_headers dst src true c = values-add_headers src dst
  values-copy_headers dst src false c =
      rw (values-add_headers src (clear_headers lib dst dst), lookup-clear_headers dst c)
