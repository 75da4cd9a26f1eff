-- ===== src/Chunked/Decode.antt =====
-- The chunked coding as a client reads it (RFC 7230, 4.1, with no extensions and no trailer), and
-- what chunkedWriter makes of a wire that takes every write.
use cffi_proxy.Base.{
  ℕ, zero, suc, true, false, ◌<◌, ◌≡◌, refl, sym, ap, ◌∙◌, Option, none, some, Text, List, [], ◌∷◌,
  ◌++◌, append_assoc, length, take, drop, ltb, ◌==◌, if◌then◌else◌, arith, take-append_length,
  drop-append_length, length-append, append-nil, ==_refl, codes,
}
use cffi_proxy.Http.{Err}
use cffi_proxy.Chunked.{Wire, crlf, write_chunk, close_chunks}
use cffi_proxy.Chunked.Hex.{
  format_hex, starts_hex, parse_hex, starts_hex-format_hex, parse-format_hex,
}

expect_crlf : Text → Option Text
expect_crlf (c ∷ d ∷ s) = if c == 13 then (if d == 10 then some s else none) else none
expect_crlf s = none

abbrev with_data : Text → Option (Text × Text) → Option (Text × Text)
with_data t none = none
with_data t (some (body, rest)) = some (t ++ body, rest)

after_size : (Text → Option (Text × Text)) → ℕ → Option Text → Option (Text × Text)
unfolding expect_crlf
after_size more n none = none
after_size more zero (some s) = elim (expect_crlf s) [ none ↦ none | some rest ↦ some ([], rest) ]
after_size more (suc n) (some s) =
    if ltb (length s) (suc n) then none else elim (expect_crlf (drop (suc n) s)) [
      | none ↦ none
      | some rest ↦ with_data (take (suc n) s) (more rest)
    ]

-- The body and what follows it; `none` if the coding is broken, as by a size without a digit, or the
-- fuel runs out.
pub decode : ℕ → Text → Option (Text × Text)
unfolding after_size
decode zero s = none
decode (suc fuel) s = elim (starts_hex s) [
  | false ↦ none
  | true ↦ let (n, t) = parse_hex 0 s in after_size (decode fuel) n (expect_crlf t)
]

-- A wire that takes every write, as the bytes that it has taken.
abbrev pub healthy : Wire Text
healthy = record { write = λ s t. (s ++ t, length t, none) }

-- io.Copy to the chunked writer: the pieces that it reads are written one by one, until an error.
unfoldable pub copy_chunks : {S : Type 0} → Wire S → List Text → S → S × Option Err
copy_chunks wire [] s = (s, none)
copy_chunks wire (piece ∷ pieces) s =
    let (s', n, err) = write_chunk wire piece s in
    elim err [ some e ↦ (s', some e) | none ↦ copy_chunks wire pieces s' ]

abbrev pub chunk : Text → Text
chunk [] = []
chunk (b ∷ bs) = format_hex (length (b ∷ bs)) ++ (crlf ++ ((b ∷ bs) ++ crlf))

abbrev pub chunks : List Text → Text
chunks [] = []
chunks (piece ∷ pieces) = chunk piece ++ chunks pieces

abbrev pub joined : List Text → Text
joined [] = []
joined (piece ∷ pieces) = piece ++ joined pieces

pub write_chunk-healthy :
    (piece s : Text) → write_chunk healthy piece s ≡ (s ++ chunk piece, length piece, none)
unfolding write_chunk
write_chunk-healthy [] s = ap (λ (t : Text). (t, 0, none)) (sym (append-nil s))
write_chunk-healthy (b ∷ bs) s = rw (==_refl (suc (length bs))) (simp append_assoc)

pub copy_chunks-healthy :
    (pieces : List Text) (s : Text) → copy_chunks healthy pieces s ≡ (s ++ chunks pieces, none)
unfolding copy_chunks
copy_chunks-healthy [] s = ap (λ (t : Text). (t, none)) (sym (append-nil s))
copy_chunks-healthy (piece ∷ pieces) s =
    ap
      (λ (x : Text × ℕ × Option Err). elim x.2 [
        | some e ↦ (x.0, some e)
        | none ↦ copy_chunks healthy pieces x.0
      ])
      (write_chunk-healthy piece s)
    ∙ copy_chunks-healthy pieces (s ++ chunk piece)
    ∙ ap (λ (t : Text). (t, none)) (append_assoc s (chunk piece) (chunks pieces))

decode_sized :
    (fuel : ℕ) (s : Text)
    → starts_hex s ≡ true
    → let (n, t) = parse_hex 0 s in decode (suc fuel) s ≡ after_size (decode fuel) n (expect_crlf t)
unfolding decode
decode_sized fuel s h = rw (decode, h) refl

decode_chunk :
    (fuel b : ℕ) (bs t : Text)
    → decode (suc fuel) (format_hex (suc (length bs)) ++ 13 ∷ 10 ∷ (b ∷ bs ++ 13 ∷ 10 ∷ t))
      ≡ with_data (b ∷ bs) (decode fuel t)
unfolding after_size
decode_chunk fuel b bs t =
    decode_sized fuel (format_hex (suc (length bs)) ++ 13 ∷ 10 ∷ (b ∷ bs ++ 13 ∷ 10 ∷ t))
      (starts_hex-format_hex (suc (length bs)) (13 ∷ 10 ∷ (b ∷ bs ++ 13 ∷ 10 ∷ t)))
    ∙ rw (parse-format_hex (suc (length bs)) (10 ∷ (b ∷ bs ++ 13 ∷ 10 ∷ t))) (
        ground (
          arith,
          length-append bs (13 ∷ 10 ∷ t),
          drop-append_length bs (13 ∷ 10 ∷ t),
          take-append_length bs (13 ∷ 10 ∷ t),
        ))

decode-chunks :
    (pieces : List Text) (fuel : ℕ) (rest : Text)
    → length pieces < fuel
    → decode fuel (chunks pieces ++ b'0' ∷ 13 ∷ 10 ∷ 13 ∷ 10 ∷ rest) ≡ some (joined pieces, rest)
decode-chunks pieces zero rest h = absurd (omega arith)
decode-chunks [] (suc fuel) rest h = unfold decode starts_hex parse_hex in refl
decode-chunks ([] ∷ pieces) (suc fuel) rest h = decode-chunks pieces (suc fuel) rest (omega arith)
decode-chunks ((b ∷ bs) ∷ pieces) (suc fuel) rest h =
    let t = chunks pieces ++ b'0' ∷ 13 ∷ 10 ∷ 13 ∷ 10 ∷ rest in
    let regroup : chunks ((b ∷ bs) ∷ pieces) ++ b'0' ∷ 13 ∷ 10 ∷ 13 ∷ 10 ∷ rest
        ≡ format_hex (suc (length bs)) ++ 13 ∷ 10 ∷ (b ∷ bs ++ 13 ∷ 10 ∷ t) =
      simp append_assoc in
    ap (decode (suc fuel)) regroup
    ∙ decode_chunk fuel b bs t
    ∙ ap (with_data (b ∷ bs)) (decode-chunks pieces fuel rest (omega arith))

-- What a client gets on a connection that takes every write: the pieces of the body, the writer's
-- Close, and the final line break that the proxy writes. It decodes to the pieces joined, and the
-- bytes after it are not touched; no error is reported.
pub decode-copy_chunks :
    (pieces : List Text) (rest : Text)
    → let out = copy_chunks healthy pieces [] in
      let closed = close_chunks healthy out.0 in
      (out.1 ≡ none)
      × (closed.1 ≡ none)
      × (decode (suc (length pieces)) (closed.0 ++ (crlf ++ rest)) ≡ some (joined pieces, rest))
unfolding close_chunks codes
decode-copy_chunks pieces rest = rw (copy_chunks-healthy pieces []) (
  refl,
  refl,
  rw (append_assoc (chunks pieces) (codes "0" ++ crlf) (crlf ++ rest))
      (decode-chunks pieces (suc (length pieces)) rest (omega arith)),
)

-- On any wire: if no error is reported, the count is the length of the data.
pub write_chunk_count :
    {S : Type 0} (wire : Wire S) (payload : Text) (s : S)
    → (write_chunk wire payload s).2 ≡ none
    → (write_chunk wire payload s).1 ≡ length payload
unfolding write_chunk
write_chunk_count wire [] s h = refl
write_chunk_count wire (b ∷ bs) s h = ground arith
