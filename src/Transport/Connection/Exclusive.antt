-- ===== src/Transport/Connection/Exclusive.antt =====
-- A connection has one user at a time.
use cffi_proxy.Base.{
  length, length-append, true, false, ℕ, ◌+◌, ◌<◌, ◌≤◌, ◌≡◌, refl, [], ◌∷◌, arith,
}
use cffi_proxy.Transport.Connection.Counting.{
  total, total-update, total_zero, weight-le-total, weights-le-total,
}
use cffi_proxy.Transport.Connection.{
  owning, get, pass_over, close_pooled, CallerPc, outside, counted, waiting, received, finished,
  failed, ReaderPc, peeking, awaiting, closing, reading, blocked, replying, at_body, stopped,
  BodyPc, no_body, unread, signalling, signalled, cleared, Connection, Step, count, write_fails,
  enqueue, receive, uncount, close_idle, go_on, take, close_last, close_blocks, read_fails,
  last_response, without_body, reply, with_body, signal, meet, clear, fresh, Reach, here, later,
}

-- A caller that has the connection and has not yet sent its request to the read loop.
abbrev pub holds : CallerPc → ℕ
holds owning = 1
holds counted = 1
holds outside = 0
holds waiting = 0
holds received = 0
holds finished = 0
holds failed = 0

-- A request that the read loop has taken and whose response it has not read yet. A loop that waits for
-- ever in a second call of `fn` is left out: that call has put the connection into the pool.
abbrev pub unread_response : ReaderPc → ℕ
unread_response (closing j) = 1
unread_response (reading j) = 1
unread_response (blocked j) = 0
unread_response (replying kept j) = 0
unread_response peeking = 0
unread_response awaiting = 0
unread_response at_body = 0
unread_response stopped = 0

abbrev pub unread_body : BodyPc → ℕ
unread_body unread = 1
unread_body no_body = 0
unread_body (signalling kept) = 0
unread_body signalled = 0
unread_body cleared = 0

-- All that keeps the connection from being given to another caller, and its places in the pool.
abbrev pub claims : ℕ → Connection → ℕ
claims n s =
    s.pooled
    + total holds n s.caller
    + length s.queue
    + unread_response s.reader
    + unread_body s.last

fresh-claims : (n : ℕ) → claims n fresh ≡ 1
fresh-claims n = omega (arith, total_zero holds n outside refl)

-- No step adds to them.
Step-claims : {n : ℕ} {s t : Connection} → Step n s t → claims n t ≤ claims n s
Step-claims {n} {s} (get i h e p b) = ground (arith, e, total-update holds n s.caller i owning h)
Step-claims (pass_over p b) = omega arith
Step-claims (close_pooled p) = omega arith
Step-claims {n} {s} (count i h e) = ground (arith, e, total-update holds n s.caller i counted h)
Step-claims {n} {s} (write_fails i h e) =
    ground (arith, e, total-update holds n s.caller i failed h)
Step-claims {n} {s} (enqueue i h e r) =
    ground (arith, e, total-update holds n s.caller i waiting h, length-append s.queue (i ∷ []))
Step-claims {n} {s} (receive i h e a) =
    ground (arith, e, total-update holds n s.caller i received h)
Step-claims {n} {s} (uncount i h e) = ground (arith, e, total-update holds n s.caller i finished h)
Step-claims (close_idle r e) = ground (arith, r)
Step-claims (go_on r e) = ground (arith, r)
Step-claims (take r q) = ground (arith, r, q)
Step-claims (close_last r) = ground (arith, r)
Step-claims (close_blocks true r l k) = ground (arith, r)
Step-claims (close_blocks false r l k) = ground (arith, r)
Step-claims (read_fails r) = ground (arith, r)
Step-claims (last_response r) = ground (arith, r)
Step-claims (without_body true r k) = ground (arith, r)
Step-claims (without_body false r k) = ground (arith, r)
Step-claims (reply r) = ground (arith, r)
Step-claims (with_body r) = ground (arith, r)
Step-claims (signal true l k) = ground (arith, l)
Step-claims (signal false l k) = ground (arith, l)
Step-claims (meet r l) = ground (arith, r, l)
Step-claims (clear l) = ground (arith, l)

Reach-claims : {n : ℕ} {s : Connection} → Reach n fresh s → claims n s ≤ 1
Reach-claims {n} here = omega (arith, fresh-claims n)
Reach-claims (later r st) = omega (arith, Step-claims st, Reach-claims r)

-- At most one caller has the connection; and while one has it, it is not in the pool, no request
-- waits for the read loop, the loop has none whose response is unread, and no body is unread.
pub record Exclusive (n : ℕ) (s : Connection) : Type 0 where
  pub alone : (i j : ℕ) → i < j → j < n → holds (s.caller i) + holds (s.caller j) ≤ 1
  pub free :
      (i : ℕ)
      → i < n
      → holds (s.caller i)
          + s.pooled
          + length s.queue
          + unread_response s.reader
          + unread_body s.last
        ≤ 1

-- In every state that any number of callers, the readers of bodies, the read loop and
-- CloseIdleConnections can reach from a new connection, in any interleaving: at most one caller has
-- got the connection and not yet sent its request to the read loop; while one has, the connection is
-- not in the pool, no request waits for the read loop, no body is unread, and the loop has taken no
-- request whose response it has still to read, unless it waits for ever in a second call of `fn`; and
-- at most one request waits. A request whose response has been read may still be unanswered then.
pub Reach-Exclusive :
    {n : ℕ} {s : Connection} → Reach n fresh s → Exclusive n s × (length s.queue ≤ 1)
Reach-Exclusive {n} {s} r = (
  record {
    alone = λ i j d h. omega (arith, weights-le-total holds n s.caller i j d h, Reach-claims r);
    free = λ i h. omega (arith, weight-le-total holds n s.caller i h, Reach-claims r);
  },
  omega (arith, Reach-claims r),
)

-- So one caller can get the connection while the response to another's request has not been sent to it.
pub overlapping :
    (s : Connection) × Reach 2 fresh s
    × (s.caller 1 ≡ owning)
    × (s.caller 0 ≡ waiting)
    × (s.reader ≡ replying true 0)
overlapping = (
  _,
  later
      (later
        (later
          (later
            (later
              (later
                (later (later here (get 0 (omega arith) refl (omega arith) refl))
                  (count 0 (omega arith) refl))
                (go_on refl (omega arith)))
              (enqueue 0 (omega arith) refl (omega arith)))
            (take refl refl))
          (close_last refl))
        (without_body true refl refl))
      (get 1 (omega arith) refl (omega arith) refl),
  refl,
  refl,
  refl,
)
