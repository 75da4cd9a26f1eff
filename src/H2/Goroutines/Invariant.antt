-- ===== src/H2/Goroutines/Invariant.antt =====
-- What holds of an HTTP/2 session while its two relays interleave.
use cffi_proxy.Base.{
  ℕ, zero, suc, not, ◌+◌, ◌<◌, ◌≤◌, ◌≡◌, ◌≢◌, refl, sym, ap, ◌∙◌, subst, Bool, true, false, Option,
  none, some, arith,
}
use cffi_proxy.Action.{ok}
use cffi_proxy.H2.{H2Err, eof, failed, Framer, proxy_frame, proxy_frames}
use cffi_proxy.H2.Goroutines.{
  Goroutine, running, sending, ended, Caller, waiting, returned, Relaying, set_at, received,
  RelayStep, go_on, stop, receive, cut, RelaySteps, begin, next,
}

module _ {S : Type 0} (fr : Framer S) where
  -- What a loop that ends makes of its first round.
  frames-next :
      (n : ℕ) (s s' v : S) (e : H2Err)
      → proxy_frame fr s ≡ (ok none, s')
      → proxy_frames fr n s ≡ (ok (some e), v)
      → (m : ℕ) × (n ≡ suc m) × (proxy_frames fr m s' ≡ (ok (some e), v))
  unfolding proxy_frames
  frames-next zero s s' v e h run = cc
  frames-next (suc m) s s' v e h run = (m, refl, rw h at run)

  frames-stop :
      (n : ℕ) (s s' v : S) (e e' : H2Err)
      → proxy_frame fr s ≡ (ok (some e'), s')
      → proxy_frames fr n s ≡ (ok (some e), v)
      → (0 < n) × (e' ≡ e) × (s' ≡ v)
  unfolding proxy_frames
  frames-stop zero s s' v e e' h run = cc
  frames-stop (suc m) s s' v e e' h run = let r = rw h at run in (omega arith, cc, cc)

set_at-same : {A : Type 0} (d : Bool) (a : A) (f : Bool → A) → set_at d a f d ≡ a
set_at-same true a f = refl
set_at-same false a f = refl

set_at-other : {A : Type 0} (d : Bool) (a : A) (f : Bool → A) → set_at d a f (not d) ≡ f (not d)
set_at-other true a f = refl
set_at-other false a f = refl

abbrev pub weight : Goroutine → ℕ
weight running = 0
weight (sending e) = 0
weight ended = 1

set_at-sum :
    (d : Bool) (n : ℕ) (f : Bool → ℕ)
    → n < f d
    → set_at d n f true + set_at d n f false < f true + f false
set_at-sum true n f h = omega arith
set_at-sum false n f h = omega arith

set_at-weight :
    (d : Bool) (g : Goroutine) (f : Bool → Goroutine)
    → weight (set_at d g f true) + weight (set_at d g f false) + weight (f d)
      ≡ weight (f true) + weight (f false) + weight g
set_at-weight true g f = omega arith
set_at-weight false g f = omega arith

-- The errors and the last states of the two relays, each by itself; the steps that they may take.
module _ {S : Type 0} (fr : Framer S) (e : Bool → H2Err) (v : Bool → S) (total : ℕ) where
  -- What is left for a goroutine to do, in `c` steps at most.
  abbrev pub Left : Goroutine → S → H2Err → S → ℕ → Type 0
  Left running s x u c = (l : ℕ) × (c ≡ suc l) × (proxy_frames fr l s ≡ (ok (some x), u))
  Left (sending y) s x u c = (c ≡ 1) × (y ≡ x) × (s ≡ u)
  Left ended s x u c = (c ≡ 0) × (s ≡ u) × (x ≡ eof)

  abbrev pub AllLeft : Relaying S → (Bool → ℕ) → Type 0
  AllLeft t c = (d : Bool) → Left (t.goroutine d) (t.side d) (e d) (v d) (c d)

  -- What holds after `k` steps.
  abbrev pub Holds : ℕ → Relaying S → Caller → Type 0
  Holds k t (waiting n) =
      (c : Bool → ℕ) × AllLeft t c
      × (k + (c true + c false) ≤ total)
      × (n + (weight (t.goroutine true) + weight (t.goroutine false)) ≡ 1)
  Holds k t (returned none) = (d : Bool) → (t.goroutine d ≡ ended) × (t.side d ≡ v d) × (e d ≡ eof)
  Holds k t (returned (some x)) = (d : Bool) × (e d ≡ x) × (x ≢ eof)

  AllLeft-change :
      (t u : Relaying S) (d : Bool) (c : Bool → ℕ) (c' : ℕ)
      → u.goroutine (not d) ≡ t.goroutine (not d)
      → u.side (not d) ≡ t.side (not d)
      → Left (u.goroutine d) (u.side d) (e d) (v d) c'
      → AllLeft t c
      → AllLeft u (set_at d c' c)
  AllLeft-change t u true c c' g s new all true = new
  AllLeft-change t u true c c' g s new all false = rw (g, s) (all false)
  AllLeft-change t u false c c' g s new all false = new
  AllLeft-change t u false c c' g s new all true = rw (g, s) (all true)

  go_on-Holds :
      (k n : ℕ) (t : Relaying S) (d : Bool) (s : S)
      → t.goroutine d ≡ running
      → proxy_frame fr (t.side d) ≡ (ok none, s)
      → Holds k t (waiting n)
      → Holds (suc k) (record t { side = set_at d s t.side }) (waiting n)
  go_on-Holds k n t d s r h (c, all, bound, count) =
      let (l, cost, run) = rw r at (all d) in
      let (m, more, run') = frames-next fr l (t.side d) s (v d) (e d) h run in
      (
        set_at d (suc m) c,
        AllLeft-change t (record t { side = set_at d s t.side }) d c (suc m) refl
            (set_at-other d s t.side) (rw (r, set_at-same d s t.side) (m, refl, run')) all,
        omega (arith, set_at-sum d (suc m) c (omega arith)),
        count,
      )

  stop-Holds :
      (k n : ℕ) (t : Relaying S) (d : Bool) (s : S) (y : H2Err)
      → t.goroutine d ≡ running
      → proxy_frame fr (t.side d) ≡ (ok (some y), s)
      → Holds k t (waiting n)
      → Holds
          (suc k)
          (record t { side = set_at d s t.side; goroutine = set_at d (sending y) t.goroutine })
          (waiting n)
  stop-Holds k n t d s y r h (c, all, bound, count) =
      let (l, cost, run) = rw r at (all d) in
      let (some_left, same, last) = frames-stop fr l (t.side d) s (v d) (e d) y h run in
      let u = record t { side = set_at d s t.side; goroutine = set_at d (sending y) t.goroutine } in
      (
        set_at d 1 c,
        AllLeft-change t u d c 1 (set_at-other d (sending y) t.goroutine) (set_at-other d s t.side)
            (rw (set_at-same d (sending y) t.goroutine, set_at-same d s t.side) (refl, same, last))
            all,
        omega (arith, set_at-sum d 1 c (omega arith)),
        omega (arith, set_at-weight d (sending y) t.goroutine, ap weight r),
      )

  ended_of_weight : (g : Goroutine) → weight g ≡ 1 → g ≡ ended
  ended_of_weight running h = cc
  ended_of_weight (sending y) h = cc
  ended_of_weight ended h = refl

  -- When both goroutines have ended, both relays have come to their ends.
  both_ended :
      (t : Relaying S) (c : Bool → ℕ)
      → AllLeft t c
      → weight (t.goroutine true) + weight (t.goroutine false) ≡ 2
      → (d : Bool) → (t.goroutine d ≡ ended) × (t.side d ≡ v d) × (e d ≡ eof)
  both_ended t c all count d =
      let g = ended_of_weight (t.goroutine d) (weight_one d) in
      let (cost, last, end) = rw g at (all d) in (g, last, end)
    where
      at_most : (g : Goroutine) → weight g ≤ 1
      at_most running = omega arith
      at_most (sending y) = omega arith
      at_most ended = omega arith

      weight_one : (d : Bool) → weight (t.goroutine d) ≡ 1
      weight_one true =
          omega (arith, at_most (t.goroutine true), at_most (t.goroutine false), count)
      weight_one false =
          omega (arith, at_most (t.goroutine true), at_most (t.goroutine false), count)

  -- A goroutine that has sent io.EOF has ended, and the steps are fewer.
  receive_eof :
      (t : Relaying S) (d : Bool) (caller : Caller) (c : Bool → ℕ)
      → t.goroutine d ≡ sending eof
      → AllLeft t c
      → let u = record t { goroutine = set_at d ended t.goroutine; caller = caller } in
        AllLeft u (set_at d 0 c)
        × (set_at d 0 c true + set_at d 0 c false < c true + c false)
        × (weight (u.goroutine true) + weight (u.goroutine false)
            ≡ suc (weight (t.goroutine true) + weight (t.goroutine false)))
  receive_eof t d caller c r all =
      let (cost, same, last) = rw r at (all d) in
      let u = record t { goroutine = set_at d ended t.goroutine; caller = caller } in
      (
        AllLeft-change t u d c 0 (set_at-other d ended t.goroutine) refl
            (rw (set_at-same d ended t.goroutine) (refl, last, sym same)) all,
        set_at-sum d 0 c (omega arith),
        omega (arith, set_at-weight d ended t.goroutine, ap weight r),
      )

  receive-Holds :
      (k n : ℕ) (t : Relaying S) (d : Bool) (y : H2Err)
      → t.goroutine d ≡ sending y
      → Holds k t (waiting n)
      → Holds
          (suc k)
          (record t { goroutine = set_at d ended t.goroutine; caller = received n y })
          (received n y)
  unfolding received
  receive-Holds k n t d (failed x) r (c, all, bound, count) =
      let (cost, same, last) = rw r at (all d) in (d, sym same, λ h. cc)
  receive-Holds k (suc n) t d eof r (c, all, bound, count) =
      let (left, fewer, weights) = receive_eof t d (waiting n) c r all in
      (set_at d 0 c, left, omega arith, omega arith)
  receive-Holds k zero t d eof r (c, all, bound, count) =
      let (left, fewer, weights) = receive_eof t d (returned none) c r all in
      both_ended (record t { goroutine = set_at d ended t.goroutine; caller = returned none })
        (set_at d 0 c) left (omega arith)

  -- After the return nothing changes that matters.
  Holds-late :
      (k : ℕ) (t u : Relaying S) (out : Option H2Err)
      → ((d : Bool)
          → t.goroutine d ≡ ended
          → (u.goroutine d ≡ t.goroutine d) × (u.side d ≡ t.side d))
      → Holds k t (returned out)
      → Holds (suc k) u (returned out)
  Holds-late k t u none same h =
      λ d. let (g, s, end) = h d in ((same d g).0 ∙ g, (same d g).1 ∙ s, end)
  Holds-late k t u (some x) same h = h

  not_ended :
      (t : Relaying S) (d d' : Bool) (s : S) (y : H2Err)
      → t.goroutine d ≡ running
      → t.goroutine d' ≡ ended
      → (set_at d (sending y) t.goroutine d' ≡ t.goroutine d') × (set_at d s t.side d' ≡ t.side d')
  not_ended t true true s y r h = cc
  not_ended t true false s y r h = (refl, refl)
  not_ended t false true s y r h = (refl, refl)
  not_ended t false false s y r h = cc

  RelayStep-Holds :
      (k : ℕ) (t u : Relaying S) (m : Caller)
      → t.caller ≡ m
      → RelayStep fr t u
      → Holds k t m
      → Holds (suc k) u (u.caller)
  RelayStep-Holds k t u (waiting n) e' (go_on d s r h) held = rw e' (go_on-Holds k n t d s r h held)
  RelayStep-Holds k t u (waiting n) e' (stop d s y r h) held =
      rw e' (stop-Holds k n t d s y r h held)
  RelayStep-Holds k t u (waiting n) e' (receive d y n' r c) held =
      let same : n ≡ n' = cc in
      receive-Holds k n' t d y r (subst (λ (x : ℕ). Holds k t (waiting x)) same held)
  RelayStep-Holds k t u (waiting n) e' (cut d s y out r c) held = cc
  RelayStep-Holds k t u (returned out) e' (go_on d s r h) held = rw e' (
      Holds-late k t (record t { side = set_at d s t.side }) out
        (λ d' x. (refl, (not_ended t d d' s eof r x).1)) held)
  RelayStep-Holds k t u (returned out) e' (stop d s y r h) held = rw e' (
      Holds-late k t
        (record t { side = set_at d s t.side; goroutine = set_at d (sending y) t.goroutine }) out
        (λ d'. not_ended t d d' s y r) held)
  RelayStep-Holds k t u (returned out) e' (receive d y n r c) held = cc
  RelayStep-Holds k t u (returned out) e' (cut d s y out' r c) held = rw e' (
      Holds-late k t
        (record t { side = set_at d s t.side; goroutine = set_at d (sending y) t.goroutine }) out
        (λ d'. not_ended t d d' s y r) held)

  pub RelaySteps-Holds :
      (k : ℕ) (t u : Relaying S)
      → Holds zero t (t.caller)
      → RelaySteps fr t k u
      → Holds k u (u.caller)
  RelaySteps-Holds zero t u h begin = h
  RelaySteps-Holds (suc k) t u h (next {u = w} r st) =
      RelayStep-Holds k w u w.caller refl st (RelaySteps-Holds k t w h r)
