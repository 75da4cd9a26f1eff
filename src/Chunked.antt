-- ===== src/Chunked.antt =====
-- goproxy/chunked.go: the chunked transfer encoding that mitm'd clients are answered with.
pub mod Hex
pub mod Decode
use cffi_proxy.Base.{
  ℕ, Bool, ◌≡◌, Option, none, some, Text, [], ◌∷◌, ◌++◌, codes, length, ◌==◌, if◌then◌else◌,
}
use cffi_proxy.Http.{Err}
use Hex.{format_hex}

-- The io.Writer below: the bytes it has taken, and its answer to a write, a count and an error.
pub record Wire (S : Type 0) : Type 0 where
  pub write : S → Text → S × ℕ × Option Err

abbrev pub crlf : Text
crlf = 13 ∷ 10 ∷ []

-- io.ErrShortWrite
abbrev pub short_write : Err
short_write = codes "short write"

module _ {S : Type 0} (wire : Wire S) where
  -- chunkedWriter.Write: the count and the error that it returns.
  unfoldable pub write_chunk : Text → S → S × ℕ × Option Err
  write_chunk [] s = (s, 0, none)
  write_chunk (b ∷ bs) s =
      let payload = b ∷ bs in
      let (s₁, _, head_err) = wire.write s (format_hex (length payload) ++ crlf) in
      elim head_err [
        | some e ↦ (s₁, 0, some e)
        | none ↦
            let (s₂, n, body_err) = wire.write s₁ payload in
            elim body_err [
              | some e ↦ (s₂, n, some e)
              | none ↦
                  if n == length payload
                  then (let (s₃, _, end_err) = wire.write s₂ crlf in (s₃, n, end_err))
                  else (s₂, n, some short_write)
            ]
      ]

  -- chunkedWriter.Close
  unfoldable pub close_chunks : S → S × Option Err
  close_chunks s = let (s', _, err) = wire.write s (codes "0" ++ crlf) in (s', err)
