-- ===== src/Https/Answer/Wires.antt =====
-- A connection that takes every write: what the chunked writer puts on it.
use cffi_proxy.Base.{
  ℕ, ◌≡◌, refl, sym, ap, ◌∙◌, Option, none, some, List, [], ◌∷◌, ◌++◌, Text, length, if◌then◌else◌,
  ◌==◌, ==_refl, arith, append_assoc, append-nil,
}
use cffi_proxy.Http.{ConnRef, Err}
use cffi_proxy.Http.World.{
  World, Event, conn_written, client_error, client_head, client_copy, conn_closed, tunnelled,
  half_tunnelled, emit,
}
use cffi_proxy.Chunked.{Wire, crlf, write_chunk}
use cffi_proxy.Chunked.Decode.{chunk, chunks, copy_chunks}
use cffi_proxy.Chunked.Hex.{format_hex}
use cffi_proxy.Https.Tunnels.{Tunnels}

-- All bytes that a connection has taken, the oldest first.
unfoldable pub written : ConnRef → List Event → Text
written c [] = []
written c (conn_written d t ∷ es) = if d == c then written c es ++ t else written c es
written c (client_error n t ∷ es) = written c es
written c (client_head n h ∷ es) = written c es
written c (client_copy f t ∷ es) = written c es
written c (conn_closed d ∷ es) = written c es
written c (tunnelled d e ∷ es) = written c es
written c (half_tunnelled d e ∷ es) = written c es

write_chunk_steps :
    {S : Type 0} (wire : Wire S) (b : ℕ) (bs : Text) (s s₁ s₂ s₃ : S) {k l : ℕ}
    → wire.write s (format_hex (length (b ∷ bs)) ++ crlf) ≡ (s₁, k, none)
    → wire.write s₁ (b ∷ bs) ≡ (s₂, length (b ∷ bs), none)
    → wire.write s₂ crlf ≡ (s₃, l, none)
    → write_chunk wire (b ∷ bs) s ≡ (s₃, length (b ∷ bs), none)
unfolding write_chunk
write_chunk_steps wire b bs s s₁ s₂ s₃ h h' h'' = ground (arith, h, h', h'')

module _ {E : Type 0} (tun : Tunnels E) where
  -- A connection that takes every write.
  abbrev pub Records : ConnRef → Type 0
  Records c =
      (w : World E) (t : Text)
      → (tun.wire c).write w t ≡ (emit (conn_written c t) w, length t, none)

  write_chunk-Records :
      (c : ConnRef) (payload : Text) (w : World E)
      → Records c
      → (v : World E) × (write_chunk (tun.wire c) payload w ≡ (v, length payload, none))
        × (written c v.events ≡ written c w.events ++ chunk payload)
  unfolding write_chunk written
  write_chunk-Records c [] w rec = (w, refl, sym (append-nil (written c w.events)))
  write_chunk-Records c (b ∷ bs) w rec =
      let payload = b ∷ bs in
      let w₁ = emit (conn_written c (format_hex (length payload) ++ crlf)) w in
      let w₂ = emit (conn_written c payload) w₁ in
      (
        emit (conn_written c crlf) w₂,
        write_chunk_steps (tun.wire c) b bs w w₁ w₂ (emit (conn_written c crlf) w₂)
            (rec w (format_hex (length payload) ++ crlf)) (rec w₁ payload) (rec w₂ crlf),
        rw (==_refl c) (simp append_assoc),
      )

  pub copy_chunks-Records :
      (c : ConnRef) (pieces : List Text) (w : World E)
      → Records c
      → (v : World E) × (copy_chunks (tun.wire c) pieces w ≡ (v, none))
        × (written c v.events ≡ written c w.events ++ chunks pieces)
  unfolding copy_chunks
  copy_chunks-Records c [] w rec = (w, refl, sym (append-nil (written c w.events)))
  copy_chunks-Records c (piece ∷ pieces) w rec =
      let (w₁, run, sent) = write_chunk-Records c piece w rec in
      let (w₂, run', sent') = copy_chunks-Records c pieces w₁ rec in
      (
        w₂,
        ap
              (λ (x : World E × ℕ × Option Err). elim x.2 [
                | some e ↦ (x.0, some e)
                | none ↦ copy_chunks (tun.wire c) pieces x.0
              ])
              run
            ∙ run',
        sent'
            ∙ ap (λ (t : Text). t ++ chunks pieces) sent
            ∙ append_assoc (written c w.events) (chunk piece) (chunks pieces),
      )
