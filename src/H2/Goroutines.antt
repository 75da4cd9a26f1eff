-- ===== src/H2/Goroutines.antt =====
-- goproxy/h2.go, H2Transport.RoundTrip from the two goroutines on, as steps that interleave. Each
-- direction has a framer of its own, that shares no end of a connection with the other: `true` is
-- from the client to the server.
pub mod Invariant
pub mod Settling
use cffi_proxy.Base.{ℕ, zero, suc, ◌≡◌, Bool, true, false, Option, none, some}
use cffi_proxy.Action.{ok}
use cffi_proxy.H2.{H2Err, eof, failed, Framer, proxy_frame}

-- A goroutine: in its loop, blocked on its channel with an error, or at its end.
pub data Goroutine : Type 0 where
  running : Goroutine
  sending : H2Err → Goroutine
  ended : Goroutine

-- RoundTrip: in its select, with so many rounds to come after this one, or at a return.
pub data Caller : Type 0 where
  waiting : ℕ → Caller
  returned : Option H2Err → Caller

pub record Relaying (S : Type 0) : Type 0 where
  pub side : Bool → S
  pub goroutine : Bool → Goroutine
  pub caller : Caller

abbrev pub set_at : {A : Type 0} → Bool → A → (Bool → A) → Bool → A
set_at true a f true = a
set_at true a f false = f false
set_at false a f true = f true
set_at false a f false = a

-- What an error that has been received does to the loop of RoundTrip.
unfoldable pub received : ℕ → H2Err → Caller
received n (failed f) = returned (some (failed f))
received zero eof = returned none
received (suc n) eof = waiting n

abbrev pub started : {S : Type 0} → (Bool → S) → Relaying S
started sides = record { side = sides; goroutine = λ d. running; caller = waiting 1 }

pub data RelayStep {S : Type 0} (fr : Framer S) (t : Relaying S) : Relaying S → Type 0 where
  -- proxyFrame returns nil
  go_on :
      (d : Bool) (s : S)
      → t.goroutine d ≡ running
      → proxy_frame fr (t.side d) ≡ (ok none, s)
      → RelayStep fr t (record t { side = set_at d s t.side })
  stop :
      (d : Bool) (s : S) (e : H2Err)
      → t.goroutine d ≡ running
      → proxy_frame fr (t.side d) ≡ (ok (some e), s)
      → RelayStep fr t
          (record t { side = set_at d s t.side; goroutine = set_at d (sending e) t.goroutine })
  receive :
      (d : Bool) (e : H2Err) (n : ℕ)
      → t.goroutine d ≡ sending e
      → t.caller ≡ waiting n
      → RelayStep fr t (record t { goroutine = set_at d ended t.goroutine; caller = received n e })
  -- after the return the server's connection is closed, and a goroutine comes to any state and error
  cut :
      (d : Bool) (s : S) (e : H2Err) (out : Option H2Err)
      → t.goroutine d ≡ running
      → t.caller ≡ returned out
      → RelayStep fr t
          (record t { side = set_at d s t.side; goroutine = set_at d (sending e) t.goroutine })

-- So many steps.
pub data RelaySteps {S : Type 0} (fr : Framer S) (t : Relaying S) : ℕ → Relaying S → Type 0 where
  begin : RelaySteps fr t zero t
  next :
      {k : ℕ} {u v : Relaying S}
      → RelaySteps fr t k u
      → RelayStep fr u v
      → RelaySteps fr t (suc k) v
