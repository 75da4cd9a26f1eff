-- ===== src/Https/Answer.antt =====
-- goproxy/https.go, handleHttps: how the final response goes to a client inside TLS.
pub mod Wires
pub mod Sent
use cffi_proxy.Base.{
  ℕ, zero, suc, Bool, true, false, not, Option, none, some, Text, [], codes, text_eq, ◌++◌, drop,
  length, has_prefix, if◌then◌else◌,
}
use cffi_proxy.Action.{
  Action, ok, pure, panic, modify, gets, defers, ◌>>=◌, ◌>>◌, nil_dereference, nil_map_write,
}
use cffi_proxy.Http.{ReqRef, RespRef, BodyRef, ConnRef, Err, Response}
use cffi_proxy.Http.Headers.{Header, HeaderLib}
use cffi_proxy.Http.World.{
  World, emit, put_request, put_response, close_body, drain_body, conn_closed,
}
use cffi_proxy.Chunked.{crlf, close_chunks}
use cffi_proxy.Chunked.Decode.{copy_chunks}
use cffi_proxy.Proxy.Network.{Network}
use cffi_proxy.Https.Tunnels.{Tunnels, write_string}

-- `return` on an error, or going on.
abbrev pub unless_error : {E : Type 0} → Action (World E) Bool → Option Err → Action (World E) Bool
unless_error k (some e) = pure false
unless_error k none = k

module _ {E : Type 0} (lib : HeaderLib) (net : Network E) (tun : Tunnels E) where
  -- The text of the status line, and the status line.
  unfoldable pub status_line : Response → Text
  status_line resp =
      let code = tun.itoa resp.status_code ++ codes " " in
      let text =
        if has_prefix resp.status code then drop (length code) resp.status else resp.status in
      codes "HTTP/1.1 " ++ (code ++ (text ++ crlf))

  -- The changes to the header; `head` says whether the request's method is HEAD.
  unfoldable pub mitm_header : Bool → Header → Header
  mitm_header head h =
      lib.set
        (if head
          then h
          else lib.set (lib.del h (codes "Content-Length")) (codes "Transfer-Encoding")
              (codes "chunked"))
        (codes "Connection") (codes "close")

  -- io.Copy(chunked, resp.Body): the writing of its pieces, and then the error of the reading.
  unfoldable pub copy_body : ConnRef → BodyRef → Action (World E) (Option Err)
  copy_body client b w =
      let body = w.bodies b in
      let (w', err) = copy_chunks (tun.wire client) (tun.pieces body.content) (drain_body b w) in
      elim err [ some e ↦ (ok (some e), w') | none ↦ (ok body.failure, w') ]

  unfoldable pub write_body : ConnRef → BodyRef → Action (World E) Bool
  unfolding copy_body write_string
  write_body client b = do
    err ← copy_body client b
    unless_error
        (do
          closed ← λ w. let (w', e) = close_chunks (tun.wire client) w in (ok e, w')
          unless_error (do ended ← write_string net tun client crlf; unless_error (pure true) ended)
              closed)
        err

  -- From the status line on: whether the loop goes on.
  unfoldable pub write_mitm : ConnRef → RespRef → BodyRef → Action (World E) Bool
  unfolding write_string status_line mitm_header write_body
  write_mitm client p b = do
    line ← gets (λ w. status_line (w.responses p))
    err ← write_string net tun client line
    unless_error
        (λ w.
          let resp = w.responses p in
          elim resp.request [
            | none ↦ panic nil_dereference w
            | some r ↦
                let head = text_eq (w.requests r).method (codes "HEAD") in
                elim resp.header [
                  | none ↦ panic nil_map_write w
                  | some h ↦
                      (do
                        modify (put_response p (record resp { header = some (mitm_header head h) }))
                        head_err ← tun.write_header (mitm_header head h) client
                        unless_error
                            (do
                              blank ← write_string net tun client crlf
                              unless_error (if head then pure true else write_body client b) blank)
                            head_err)
                        w
                ]
          ])
        err
