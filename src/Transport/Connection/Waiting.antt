-- ===== src/Transport/Connection/Waiting.antt =====
-- Callers that wait for an answer when the read loop has ended.
use cffi_proxy.Base.{true, ℕ, false, ◌≡◌, refl, ◌∙◌, arith}
use cffi_proxy.Transport.Connection.{
  get, pass_over, close_pooled, waiting, stopped, Connection, Step, count, write_fails, enqueue,
  receive, uncount, close_idle, go_on, take, close_last, close_blocks, read_fails, last_response,
  without_body, reply, with_body, signal, meet, clear, Reach, here, later, fresh,
}

-- A caller that waits without an answer, while the read loop has stopped.
pub record Stranded (i : ℕ) (s : Connection) : Type 0 where
  pub stopped_reader : s.reader ≡ stopped
  pub still_waiting : s.caller i ≡ waiting
  pub no_answer : s.answered i ≡ false

Stranded-by :
    {i : ℕ} {s t : Connection}
    → Stranded i s
    → t.reader ≡ s.reader
    → t.caller i ≡ waiting
    → t.answered i ≡ false
    → Stranded i t
Stranded-by h r c a = record {
  stopped_reader = r ∙ h.stopped_reader;
  still_waiting = c;
  no_answer = a;
}

Step-Stranded : {n i : ℕ} {s t : Connection} → Step n s t → Stranded i s → Stranded i t
Step-Stranded (get j l e p b) h =
    Stranded-by h refl (ground (arith, h.still_waiting, h.no_answer)) (ground (arith, h.no_answer))
Step-Stranded (pass_over p b) h = Stranded-by h refl h.still_waiting h.no_answer
Step-Stranded (close_pooled p) h = Stranded-by h refl h.still_waiting h.no_answer
Step-Stranded (count j l e) h =
    Stranded-by h refl (ground (arith, h.still_waiting, h.no_answer)) (ground (arith, h.no_answer))
Step-Stranded (write_fails j l e) h =
    Stranded-by h refl (ground (arith, h.still_waiting, h.no_answer)) (ground (arith, h.no_answer))
Step-Stranded (enqueue j l e q) h =
    Stranded-by h refl (ground (arith, h.still_waiting, h.no_answer)) (ground (arith, h.no_answer))
Step-Stranded (receive j l e a) h =
    Stranded-by h refl (ground (arith, h.still_waiting, h.no_answer)) (ground (arith, h.no_answer))
Step-Stranded (uncount j l e) h =
    Stranded-by h refl (ground (arith, h.still_waiting, h.no_answer)) (ground (arith, h.no_answer))
Step-Stranded (close_idle r e) h = cc
Step-Stranded (go_on r e) h = cc
Step-Stranded (take r q) h = cc
Step-Stranded (close_last r) h = cc
Step-Stranded (close_blocks kept r l k) h = cc
Step-Stranded (read_fails r) h = cc
Step-Stranded (last_response r) h = cc
Step-Stranded (without_body kept r k) h = cc
Step-Stranded (reply r) h = cc
Step-Stranded (with_body r) h = cc
Step-Stranded (signal true l k) h = Stranded-by h refl h.still_waiting h.no_answer
Step-Stranded (signal false l k) h = Stranded-by h refl h.still_waiting h.no_answer
Step-Stranded (meet r l) h = cc
Step-Stranded (clear l) h = Stranded-by h refl h.still_waiting h.no_answer

-- Once the read loop has stopped, a caller that has sent its request and has no answer yet waits for
-- ever: no steps of the others end its waiting.
pub Reach-Stranded : {n i : ℕ} {s t : Connection} → Stranded i s → Reach n s t → Stranded i t
Reach-Stranded h here = h
Reach-Stranded h (later r st) = Step-Stranded st (Reach-Stranded h r)

-- This state is reachable: one caller gets the connection, and counts itself just after the read
-- loop has seen that nothing is expected.
pub stranding : (s : Connection) × Reach 1 fresh s × Stranded 0 s
stranding = (
  _,
  later
      (later
        (later (later here (get 0 (omega arith) refl (omega arith) refl)) (close_idle refl refl))
        (count 0 (omega arith) refl))
      (enqueue 0 (omega arith) refl (omega arith)),
  record { stopped_reader = refl; still_waiting = refl; no_answer = refl },
)
