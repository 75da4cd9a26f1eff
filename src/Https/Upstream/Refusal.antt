-- ===== src/Https/Upstream/Refusal.antt =====
-- The answer of another proxy to a CONNECT.
use cffi_proxy.Base.{
  ℕ, ◌≡◌, true, Option, none, some, ◌∷◌, ◌++◌, Text, codes, ◌==◌, if◌then◌else◌, arith,
}
use cffi_proxy.Action.{ok}
use cffi_proxy.Http.{RespRef, BodyRef, ConnRef, Err, Request}
use cffi_proxy.Http.World.{World, conn_closed}
use cffi_proxy.Https.Upstream.{Dialers, Upstream, read_all, judge, ask_upstream}

module _ {E : Type 0} (dialers : Dialers E) (up : Upstream E) where
  -- If the other proxy answers, and its body can be read as far as it is asked for, then the
  -- connection is given out, and not closed, exactly if the status is 200; otherwise it is closed and
  -- the error has the body's text. The body is closed in both cases.
  pub ask_upstream-answered :
      (limit : Option ℕ) (req : Request) (c : ConnRef) (p : RespRef) (b : BodyRef) (e : Option Err)
      (text : Text) (w w₁ w₂ : World E)
      → up.write_connect req c w ≡ (ok e, w₁)
      → up.read_answer c w₁ ≡ (ok (some p, none), w₂)
      → (w₂.responses p).body ≡ some b
      → read_all dialers up limit (w₂.bodies b) ≡ (text, none)
      → let (out, v) = ask_upstream dialers up limit req c w in
        let accepted = (w₂.responses p).status_code == 200 in
        (out ≡ (
          if accepted
          then ok (some c, none)
          else ok (none, some (codes "proxy refused connection" ++ text))))
        × (v.events ≡ (if accepted then w₂.events else conn_closed c ∷ w₂.events))
        × ((v.bodies b).is_closed ≡ true)
  unfolding ask_upstream judge
  ask_upstream-answered limit req c p b e text w w₁ w₂ x y h t =
      (ground (arith, x, y, h, t), ground (arith, x, y, h, t), ground (arith, x, y, h, t))
