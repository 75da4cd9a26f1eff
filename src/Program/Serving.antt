-- ===== src/Program/Serving.antt =====
-- main.go with goproxy/https.go: a whole connection whose CONNECT is intercepted.
use cffi_proxy.Base.{
  ℕ, zero, suc, ◌≡◌, refl, sym, ap, ◌∙◌, Bool, true, false, none, some, List, [], ◌∷◌, Text, ◌++◌,
  append_assoc, append-nil, codes, text_eq,
}
use cffi_proxy.Action.{Outcome, ok}
use cffi_proxy.Http.{ReqRef, RespRef, BodyRef, ConnRef, Response}
use cffi_proxy.Http.Headers.{Header, HeaderLib}
use cffi_proxy.Http.World.{World}
use cffi_proxy.Dispatcher.{ConnectAction}
use cffi_proxy.Proxy.Network.{Network}
use cffi_proxy.Https.Tunnels.{Tunnels, is_eof}
use cffi_proxy.Https.Answer.{write_mitm}
use cffi_proxy.Https.Answer.Wires.{Records, written}
use cffi_proxy.Https.Answer.Sent.{RecordsHeader}
use cffi_proxy.Https.Mitm.{mitm_rounds}
use cffi_proxy.Program.{TlsClient, transport_handle_request, program}
use cffi_proxy.Program.Relaying.{relayed, relayed_response, program-filter_response}
use cffi_proxy.Program.Intercepting.{
  inside, rounds_step, Message, program-writes, program-take_request,
}

-- What the TLS client got for a request: the response, its header, and what can be read of its body.
pub record Got : Type 0 where
  pub response : Response
  pub header : Header
  pub content : Text

with_world : {S : Type 0} {v : S} {m : Outcome Bool × S} → m ≡ (ok true, v) → m ≡ (ok true, m.1)
with_world {S} e = e ∙ ap (λ (x : S). (ok true, x)) (sym (ap (λ (x : Outcome Bool × S). x.1) e))

module _ {E : Type 0} (lib : HeaderLib) (tls : TlsClient E) (mitm : ConnectAction) (net : Network E)
    (tun : Tunnels E) (host : Text) (outer : ReqRef) (config : ℕ) (client : ConnRef) where
  -- The world after the program has written its answer.
  abbrev pub answered_world : RespRef → BodyRef → Header → World E → World E
  answered_world p b h w =
      (write_mitm lib net tun client p w.next_body (relayed lib tls mitm p b h w)).1

  -- From a world, so many requests come one after another, and the TLS client gets a response to each,
  -- with a request that is not a HEAD, a header and a body; up to then nothing is written to the client.
  pub data Exchanges : ℕ → World E → List Got → Type 0 where
    over : (w : World E) → Exchanges zero w []
    exchange :
        {n : ℕ} {gots : List Got} (r p q : RespRef) (b : BodyRef) (h : Header)
        (w w₁ w₂ w₃ : World E)
        → is_eof tun client w ≡ (ok false, w₁)
        → tun.read_request client w₁ ≡ (ok (some r, none), w₂)
        → transport_handle_request tls r (inside lib tls mitm net tun host outer config client r w₂)
          ≡ (ok (p, none), w₃)
        → (w₃.responses p).request ≡ some q
        → (w₃.responses p).header ≡ some h
        → (w₃.responses p).body ≡ some b
        → text_eq (w₃.requests q).method (codes "HEAD") ≡ false
        → written client w₃.events ≡ written client w.events
        → Exchanges n (answered_world p b h w₃) gots
        → Exchanges (suc n) w (
            record { response = w₃.responses p; header = h; content = (w₃.bodies b).content }
            ∷ gots)

  -- A text that is one message for each response, in order.
  pub data Messages (print : Header → Text) : List Got → Text → Type 0 where
    no_more : Messages print [] []
    message :
        {gots : List Got} {rest : Text} (got : Got) (text : Text)
        → Message lib tls mitm net tun host outer config client print got.response got.header
            got.content text
        → Messages print gots rest
        → Messages print (got ∷ gots) (text ++ rest)

  abbrev pub Served : (Header → Text) → ℕ → World E → List Got → Type 0
  Served print n w gots =
      let out = mitm_rounds lib net tun (program lib tls mitm) host outer config client n w in
      (text : Text) × (out.0 ≡ ok tt)
      × (written client out.1.events ≡ written client w.events ++ text)
      × Messages print gots text

  -- On a connection that takes every write, requests as in `Exchanges` are answered one after another:
  -- the rounds end without an error, and what they write to the client is one message for each of the
  -- TLS client's responses, in order.
  pub program-serves :
      (print : Header → Text) {n : ℕ} {w : World E} {gots : List Got}
      → Records tun client
      → RecordsHeader lib net tun print client
      → Exchanges n w gots
      → Served print n w gots
  unfolding mitm_rounds
  program-serves print rec rech (over w) =
      ([], refl, sym (append-nil (written client w.events)), no_more)
  program-serves print rec rech
        (exchange {n} {gots} r p q b h w w₁ w₂ w₃ eof read sends req hdr body method quiet more) =
      let (v, text, run, out, m) =
        program-writes lib tls mitm net tun host outer config client print p q b h w₃ rec rech req
          hdr body method in
      let same : answered_world p b h w₃ ≡ v = ap (λ (x : Outcome Bool × World E). x.1) run in
      let (rest, done, later, ms) = program-serves print rec rech more in
      let step =
        rounds_step lib tls mitm net tun host outer config client n (some r, none) p p w₃.next_body
          w w₁ w₂ w₃ (relayed lib tls mitm p b h w₃) (answered_world p b h w₃) eof read
          (program-take_request lib tls mitm net tun host outer config client r p w₂ w₃ sends)
          (program-filter_response lib tls mitm p q b h w₃ req hdr body)
          (ap (λ (x : Response). x.body) (relayed_response lib tls mitm p b h w₃))
          (with_world run) in
      (
        text ++ rest,
        ap (λ (x : Outcome (Unit {0}) × World E). x.0) step ∙ done,
        ap (λ (x : Outcome (Unit {0}) × World E). written client x.1.events) step
            ∙ later
            ∙ ap (λ (x : World E). written client x.events ++ rest) same
            ∙ ap (λ (t : Text). t ++ rest) (out ∙ ap (λ (t : Text). t ++ text) quiet)
            ∙ append_assoc (written client w.events) text rest,
        message _ text m ms,
      )
