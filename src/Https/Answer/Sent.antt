-- ===== src/Https/Answer/Sent.antt =====
-- What a client inside TLS gets for a request, on a connection that takes every write.
use cffi_proxy.Base.{
  ℕ, ◌≡◌, sym, ap, ◌∙◌, Bool, true, false, Option, none, some, List, [], ◌∷◌, ◌++◌, Text, codes,
  length, text_eq, if◌then◌else◌, ==_refl, arith, append_assoc, suc,
}
use cffi_proxy.Action.{ok}
use cffi_proxy.Http.{RespRef, BodyRef, ConnRef, ReqRef, Err}
use cffi_proxy.Http.Headers.{Header, HeaderLib, lookup}
use cffi_proxy.Http.World.{World, conn_written, emit, drain_body, put_response}
use cffi_proxy.Proxy.Network.{Network}
use cffi_proxy.Chunked.{crlf, close_chunks}
use cffi_proxy.Chunked.Decode.{
  chunks, copy_chunks, copy_chunks-healthy, decode, joined, decode-copy_chunks,
}
use cffi_proxy.Https.Tunnels.{Tunnels, write_string}
use cffi_proxy.Https.Answer.{status_line, write_body, copy_body, mitm_header, write_mitm}
use cffi_proxy.Https.Answer.Wires.{written, Records, copy_chunks-Records}

module _ {E : Type 0} (lib : HeaderLib) (net : Network E) (tun : Tunnels E) where
  -- The header of the answer says that it is chunked and that the connection closes, and has no
  -- Content-Length, unless the request was a HEAD: then only Connection is set. Every other entry
  -- is the response's.
  pub lookup-mitm_header :
      (head : Bool) (h : Header) (k : Text)
      → lookup k (mitm_header lib net tun head h) ≡ (
          if text_eq (codes "Connection") k
          then some (codes "close" ∷ [])
          else if head
          then lookup k h
          else if text_eq (codes "Transfer-Encoding") k
          then some (codes "chunked" ∷ [])
          else if text_eq (codes "Content-Length") k
          then none
          else lookup k h)
  unfolding mitm_header
  lookup-mitm_header head h k = ground (
    arith,
    lib.lookup-set
        (if head
          then h
          else lib.set (lib.del h (codes "Content-Length")) (codes "Transfer-Encoding")
              (codes "chunked"))
        (codes "Connection") (codes "close") k,
    lib.lookup-set (lib.del h (codes "Content-Length")) (codes "Transfer-Encoding")
        (codes "chunked") k,
    lib.lookup-del h (codes "Content-Length") k,
    lib.standard.1.1.1.1.0,
    lib.standard.1.1.1.1.1.0,
    lib.standard.1.1.1.1.1.1.1.0,
  )

  -- The body as it goes over the wire, with the line break at the end.
  abbrev coded : List Text → Text
  coded pieces = chunks pieces ++ (codes "0" ++ crlf) ++ crlf

  decode-coded :
      (pieces : List Text) (rest : Text)
      → decode (suc (length pieces)) (coded pieces ++ rest) ≡ some (joined pieces, rest)
  unfolding close_chunks
  decode-coded pieces rest =
      let (_, _, decoded) = decode-copy_chunks pieces rest in
      ap (decode (suc (length pieces))) (
        append_assoc (chunks pieces ++ (codes "0" ++ crlf)) crlf rest
        ∙ ap (λ (x : Text × Option Err). x.0 ++ (codes "0" ++ crlf) ++ (crlf ++ rest))
            (sym (copy_chunks-healthy pieces [])))
      ∙ decoded

  write_body_steps :
      (c : ConnRef) (b : BodyRef) (w w₁ w₂ w₃ : World E) {k l : ℕ}
      → copy_chunks (tun.wire c) (tun.pieces (w.bodies b).content) (drain_body b w) ≡ (w₁, none)
      → (w.bodies b).failure ≡ none
      → (tun.wire c).write w₁ (codes "0" ++ crlf) ≡ (w₂, k, none)
      → (tun.wire c).write w₂ crlf ≡ (w₃, l, none)
      → write_body lib net tun c b w ≡ (ok true, w₃)
  unfolding write_body copy_body close_chunks write_string
  write_body_steps c b w w₁ w₂ w₃ run intact h h' = ground (arith, run, intact, h, h')

  write_body-Records :
      (c : ConnRef) (b : BodyRef) (w : World E)
      → Records tun c
      → (w.bodies b).failure ≡ none
      → (v : World E) × (write_body lib net tun c b w ≡ (ok true, v))
        × (written c v.events ≡ written c w.events ++ coded (tun.pieces (w.bodies b).content))
  unfolding written
  write_body-Records c b w rec intact =
      let (v, run, sent) =
        copy_chunks-Records tun c (tun.pieces (w.bodies b).content) (drain_body b w) rec in
      let v' = emit (conn_written c (codes "0" ++ crlf)) v in
      (
        emit (conn_written c crlf) v',
        write_body_steps c b w v v' (emit (conn_written c crlf) v') run intact
            (rec v (codes "0" ++ crlf)) (rec v' crlf),
        rw (==_refl c)
            (ap (λ (t : Text). t ++ (codes "0" ++ crlf) ++ crlf) sent ∙ simp append_assoc),
      )

  -- A header writer that puts a text for the header on the connection.
  abbrev pub RecordsHeader : (Header → Text) → ConnRef → Type 0
  RecordsHeader print c =
      (h : Header) (w : World E)
      → tun.write_header h c w ≡ (ok none, emit (conn_written c (print h)) w)

  with_mitm_header : RespRef → Header → World E → World E
  with_mitm_header p h w =
      put_response p (record (w.responses p) { header = some (mitm_header lib net tun false h) }) w

  head_steps :
      (c : ConnRef) (p : RespRef) (b : BodyRef) (r : ReqRef) (h : Header) (w w₁ w₃ w₄ : World E)
      {k l : ℕ}
      → (tun.wire c).write w (status_line lib net tun (w.responses p)) ≡ (w₁, k, none)
      → (w₁.responses p).request ≡ some r
      → (w₁.responses p).header ≡ some h
      → text_eq (w₁.requests r).method (codes "HEAD") ≡ false
      → tun.write_header (mitm_header lib net tun false h) c (with_mitm_header p h w₁)
        ≡ (ok none, w₃)
      → (tun.wire c).write w₃ crlf ≡ (w₄, l, none)
      → write_mitm lib net tun c p b w ≡ write_body lib net tun c b w₄
  unfolding write_mitm write_string with_mitm_header
  head_steps c p b r h w w₁ w₃ w₄ a q i m x y = ground (arith, a, q, i, m, x, y)

  -- For a client on a connection that takes every write, and a request other than HEAD: if the
  -- body reads without an error, the answer goes out without an error. It is the status line, the
  -- header as `mitm_header` changes it, an empty line, and bytes that decode, as chunked coding,
  -- to what can be read of the body, whatever bytes come after them.
  pub write_mitm-sends :
      (print : Header → Text) (c : ConnRef) (p : RespRef) (b : BodyRef) (r : ReqRef) (h : Header)
      (w : World E)
      → Records tun c
      → RecordsHeader print c
      → (w.responses p).request ≡ some r
      → (w.responses p).header ≡ some h
      → text_eq (w.requests r).method (codes "HEAD") ≡ false
      → (w.bodies b).failure ≡ none
      → let content = (w.bodies b).content in
        (v : World E) × (bytes : Text) × (write_mitm lib net tun c p b w ≡ (ok true, v))
        × (written c v.events
            ≡ written c w.events
              ++ status_line lib net tun (w.responses p)
              ++ print (mitm_header lib net tun false h)
              ++ crlf
              ++ bytes)
        × ((rest : Text)
            → decode (suc (length (tun.pieces content))) (bytes ++ rest) ≡ some (content, rest))
  unfolding written with_mitm_header
  write_mitm-sends print c p b r h w rec rech q i m intact =
      let line = status_line lib net tun (w.responses p) in
      let head = print (mitm_header lib net tun false h) in
      let w₁ = emit (conn_written c line) w in
      let w₂ = with_mitm_header p h w₁ in
      let w₃ = emit (conn_written c head) w₂ in
      let (v, run, sent) = write_body-Records c b (emit (conn_written c crlf) w₃) rec intact in
      (
        v,
        coded (tun.pieces (w.bodies b).content),
        head_steps c p b r h w w₁ w₃ (emit (conn_written c crlf) w₃) (rec w line) q i m
              (rech (mitm_header lib net tun false h) w₂) (rec w₃ crlf)
            ∙ run,
        sent ∙ rw (==_refl c) (simp append_assoc),
        λ rest.
            decode-coded (tun.pieces (w.bodies b).content) rest
            ∙ ap (λ (t : Text). some (t, rest)) (tun.joined-pieces (w.bodies b).content),
      )
