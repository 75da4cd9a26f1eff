-- ===== src/H2/Goroutines/Settling.antt =====
-- That an HTTP/2 session comes to the result of its two relays, however they interleave.
use cffi_proxy.Base.{
  ℕ, zero, suc, ◌+◌, ◌<◌, ◌≡◌, ◌≢◌, refl, Bool, true, false, Option, none, some, arith, ◌⊎◌, inl,
  inr,
}
use cffi_proxy.Action.{ok, panics, Outcome}
use cffi_proxy.H2.{H2Err, eof, Framer, proxy_frame, proxy_frames}
use cffi_proxy.H2.Goroutines.Invariant.{weight, Left, Holds, RelaySteps-Holds}
use cffi_proxy.H2.Goroutines.{
  Goroutine, running, sending, ended, Caller, waiting, returned, Relaying, set_at, received,
  started, RelayStep, go_on, stop, receive, RelaySteps,
}

module _ {S : Type 0} (fr : Framer S) where
  -- The first round of a loop that ends does not panic.
  round_of :
      (n : ℕ) (s v : S) (e : H2Err) (o : Outcome (Option H2Err)) (s' : S)
      → proxy_frame fr s ≡ (o, s')
      → proxy_frames fr n s ≡ (ok (some e), v)
      → (out : Option H2Err) × (proxy_frame fr s ≡ (ok out, s'))
  unfolding proxy_frames
  round_of zero s v e o s' h run = cc
  round_of (suc m) s v e (ok out) s' h run = (out, h)
  round_of (suc m) s v e (panics x) s' h run = let r = rw h at run in cc

-- The errors and the last states of the two relays, each by itself; the steps that they may take.
module _ {S : Type 0} (fr : Framer S) (e : Bool → H2Err) (v : Bool → S) (total : ℕ) where
  -- While RoundTrip waits, there have been fewer steps than `total` and one more is possible; if it has
  -- returned without an error, both relays have come to their last states, with io.EOF; if it has
  -- returned an error, it is that of one of the relays and not io.EOF.
  abbrev pub Settles : Relaying S → Caller → ℕ → Type 0
  Settles t (waiting n) k = (k < total) × ((u : Relaying S) × RelayStep fr t u)
  Settles t (returned none) k = (d : Bool) → (t.side d ≡ v d) × (e d ≡ eof)
  Settles t (returned (some x)) k = (d : Bool) × (e d ≡ x) × (x ≢ eof)

  running_step :
      (t : Relaying S) (d : Bool) (s : S)
      → t.goroutine d ≡ running
      → (out : Option H2Err) → proxy_frame fr (t.side d) ≡ (ok out, s)
      → (u : Relaying S) × RelayStep fr t u
  running_step t d s r none h = (record t { side = set_at d s t.side }, go_on d s r h)
  running_step t d s r (some y) h = (
    record t { side = set_at d s t.side; goroutine = set_at d (sending y) t.goroutine },
    stop d s y r h,
  )

  light : (g : Goroutine) → (weight g ≡ 0) ⊎ (weight g ≡ 1)
  light running = inl refl
  light (sending y) = inl refl
  light ended = inr refl

  -- What a goroutine that has not ended can do.
  can_step :
      (t : Relaying S) (d : Bool) (n c : ℕ)
      → t.caller ≡ waiting n
      → (g : Goroutine) → t.goroutine d ≡ g
      → weight g ≡ 0
      → Left fr e v total g (t.side d) (e d) (v d) c
      → (0 < c) × ((u : Relaying S) × RelayStep fr t u)
  can_step t d n c m running r w (l, cost, run) =
      let (o, s) = proxy_frame fr (t.side d) in
      let (out, h) = round_of fr l (t.side d) (v d) (e d) o s refl run in
      (omega arith, running_step t d s r out h)
  can_step t d n c m (sending y) r w (cost, same, last) = (
    omega arith,
    (record t { goroutine = set_at d ended t.goroutine; caller = received n y }, receive d y n r m),
  )
  can_step t d n c m ended r w left = cc

  -- While RoundTrip waits, a step is possible.
  Holds-Settles :
      (k : ℕ) (t : Relaying S) (m : Caller)
      → t.caller ≡ m
      → Holds fr e v total k t m
      → Settles t m k
  Holds-Settles k t (returned none) h held = λ d. let (g, s, end) = held d in (s, end)
  Holds-Settles k t (returned (some x)) h held = held
  Holds-Settles k t (waiting n) h (c, all, bound, count) = elim (light (t.goroutine true)) [
    | inl none_yet ↦
        let (more, step) =
          can_step t true n (c true) h (t.goroutine true) refl none_yet (all true) in
        (omega arith, step)
    | inr one ↦
        let (more, step) =
          can_step t false n (c false) h (t.goroutine false) refl (omega arith) (all false) in
        (omega arith, step)
  ]

-- A session's RoundTrip returns, however its two relays interleave. Given that each relay by itself
-- ends, with an error and in a state, after so many rounds at most: while RoundTrip waits, a step is
-- possible, and there have been no more steps than these rounds and one; if it has returned without an
-- error, both relays have ended with io.EOF, in their last states; and if it has returned an error, it
-- is that of one of the relays, and not io.EOF.
pub RelaySteps-Settles :
    {S : Type 0} (fr : Framer S) (sides v : Bool → S) (fuel : Bool → ℕ) (e : Bool → H2Err) (k : ℕ)
    (t : Relaying S)
    → ((d : Bool) → proxy_frames fr (fuel d) (sides d) ≡ (ok (some (e d)), v d))
    → RelaySteps fr (started sides) k t
    → Settles fr e v (fuel true + fuel false + 2) t t.caller k
RelaySteps-Settles fr sides v fuel e k t runs steps =
    let total = fuel true + fuel false + 2 in
    Holds-Settles fr e v total k t t.caller refl (
      RelaySteps-Holds fr e v total k (started sides) t
        (λ d. suc (fuel d), λ d. (fuel d, refl, runs d), omega arith, refl) steps)
