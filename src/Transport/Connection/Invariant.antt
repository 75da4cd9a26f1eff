-- ===== src/Transport/Connection/Invariant.antt =====
-- What holds in every reachable state of a connection.
use cffi_proxy.Base.{
  true, false, ℕ, ◌+◌, ◌≡◌, ◌≢◌, refl, sym, ap, subst, List, [], ◌∷◌, ◌++◌, ◌==◌, if◌then◌else◌,
  arith,
}
use cffi_proxy.Transport.Connection.Counting.{total, total-update, total_zero}
use cffi_proxy.Transport.Connection.{
  owning, get, pass_over, close_pooled, CallerPc, outside, counted, waiting, received, finished,
  failed, ReaderPc, peeking, awaiting, closing, reading, blocked, replying, at_body, stopped,
  BodyPc, no_body, unread, signalling, signalled, cleared, Connection, next_round, Step, count,
  write_fails, enqueue, receive, uncount, close_idle, go_on, take, close_last, close_blocks,
  read_fails, last_response, without_body, reply, with_body, signal, meet, clear, fresh, Reach,
  here, later,
}

-- What a caller adds to numExpectedResponses; one that has failed is never taken off again.
abbrev pub expects : CallerPc → ℕ
expects outside = 0
expects owning = 0
expects finished = 0
expects counted = 1
expects waiting = 1
expects received = 1
expects failed = 1

abbrev pub occurrences : ℕ → List ℕ → ℕ
occurrences i [] = 0
occurrences i (j ∷ q) = (if j == i then 1 else 0) + occurrences i q

abbrev pub serves : ReaderPc → ℕ → ℕ
serves (closing j) i = if j == i then 1 else 0
serves (reading j) i = if j == i then 1 else 0
serves (blocked j) i = if j == i then 1 else 0
serves (replying kept j) i = if j == i then 1 else 0
serves peeking i = 0
serves awaiting i = 0
serves at_body i = 0
serves stopped i = 0

-- The places in which a caller's request, or its answer, stands.
abbrev pub places : ℕ → Connection → ℕ
places i s = occurrences i s.queue + serves s.reader i + (if s.answered i then 1 else 0)

abbrev pub waits : CallerPc → ℕ
waits waiting = 1
waits outside = 0
waits owning = 0
waits counted = 0
waits received = 0
waits finished = 0
waits failed = 0

-- While a body is unread, or its end is being signalled, the reader is at the body.
abbrev pub Unread : BodyPc → ReaderPc → Type 0
Unread unread r = r ≡ at_body
Unread (signalling kept) r = r ≡ at_body
Unread no_body r = Unit
Unread signalled r = Unit
Unread cleared r = Unit

pub record Inv (n : ℕ) (s : Connection) : Type 0 where
  pub counts : s.expected ≡ total expects n s.caller
  pub placed : (i : ℕ) → places i s ≡ waits (s.caller i)
  pub body : Unread s.last s.reader

occurrences-snoc :
    (i j : ℕ) (q : List ℕ)
    → occurrences i (q ++ j ∷ []) ≡ occurrences i q + (if j == i then 1 else 0)
occurrences-snoc i j [] = omega arith
occurrences-snoc i j (k ∷ q) = omega (arith, occurrences-snoc i j q)

fresh-Inv : (n : ℕ) → Inv n fresh
fresh-Inv n = record {
  counts = sym (total_zero expects n outside refl);
  placed = λ i. refl;
  body = tt;
}

Step-counts :
    {n : ℕ} {s t : Connection} → Step n s t → Inv n s → t.expected ≡ total expects n t.caller
Step-counts {n} {s} (get i h e p b) inv =
    ground (arith, inv.counts, e, total-update expects n s.caller i owning h)
Step-counts (pass_over p b) inv = inv.counts
Step-counts (close_pooled p) inv = inv.counts
Step-counts {n} {s} (count i h e) inv =
    ground (arith, inv.counts, e, total-update expects n s.caller i counted h)
Step-counts {n} {s} (write_fails i h e) inv =
    ground (arith, inv.counts, e, total-update expects n s.caller i failed h)
Step-counts {n} {s} (enqueue i h e r) inv =
    ground (arith, inv.counts, e, total-update expects n s.caller i waiting h)
Step-counts {n} {s} (receive i h e a) inv =
    ground (arith, inv.counts, e, total-update expects n s.caller i received h)
Step-counts {n} {s} (uncount i h e) inv =
    ground (arith, inv.counts, e, total-update expects n s.caller i finished h)
Step-counts (close_idle r e) inv = inv.counts
Step-counts (go_on r e) inv = inv.counts
Step-counts (take r q) inv = inv.counts
Step-counts (close_last r) inv = inv.counts
Step-counts (close_blocks true r l k) inv = inv.counts
Step-counts (close_blocks false r l k) inv = inv.counts
Step-counts (read_fails r) inv = inv.counts
Step-counts (last_response r) inv = inv.counts
Step-counts (without_body true r k) inv = inv.counts
Step-counts (without_body false r k) inv = inv.counts
Step-counts (reply r) inv = inv.counts
Step-counts (with_body r) inv = inv.counts
Step-counts (signal true l k) inv = inv.counts
Step-counts (signal false l k) inv = inv.counts
Step-counts (meet r l) inv = inv.counts
Step-counts (clear l) inv = inv.counts

Step-placed :
    {n : ℕ} {s t : Connection} → Step n s t → Inv n s → (j : ℕ) → places j t ≡ waits (t.caller j)
Step-placed {n} {s} (get i h e p b) inv j = ground (arith, inv.placed j, e)
Step-placed (pass_over p b) inv j = inv.placed j
Step-placed (close_pooled p) inv j = inv.placed j
Step-placed {n} {s} (count i h e) inv j = ground (arith, inv.placed j, e)
Step-placed {n} {s} (write_fails i h e) inv j = ground (arith, inv.placed j, e)
Step-placed {n} {s} (enqueue i h e r) inv j =
    ground (arith, inv.placed j, e, occurrences-snoc j i s.queue)
Step-placed {n} {s} (receive i h e a) inv j = ground (arith, inv.placed j, e, a)
Step-placed {n} {s} (uncount i h e) inv j = ground (arith, inv.placed j, e)
Step-placed (close_idle r e) inv j = ground (arith, inv.placed j, r)
Step-placed (go_on r e) inv j = ground (arith, inv.placed j, r)
Step-placed {s} (take r q) inv j = ground (arith, inv.placed j, r, ap (occurrences j) q)
Step-placed (close_last r) inv j = ground (arith, inv.placed j, r)
Step-placed (close_blocks true r l k) inv j = ground (arith, inv.placed j, r)
Step-placed (close_blocks false r l k) inv j = ground (arith, inv.placed j, r)
Step-placed (read_fails r) inv j = ground (arith, inv.placed j, r)
Step-placed (last_response r) inv j = ground (arith, inv.placed j, r)
Step-placed (without_body true r k) inv j = ground (arith, inv.placed j, r)
Step-placed (without_body false r k) inv j = ground (arith, inv.placed j, r)
Step-placed (reply r) inv j = ground (arith, inv.placed j, r)
Step-placed (with_body r) inv j = ground (arith, inv.placed j, r)
Step-placed (signal true l k) inv j = inv.placed j
Step-placed (signal false l k) inv j = inv.placed j
Step-placed (meet {kept} r l) inv j = ground (arith, inv.placed j, r)
Step-placed (clear l) inv j = inv.placed j

-- Away from a body, the reader may move anywhere.
Unread-elsewhere : (b : BodyPc) (r r' : ReaderPc) → r ≢ at_body → Unread b r → Unread b r'
Unread-elsewhere no_body r r' away u = tt
Unread-elsewhere signalled r r' away u = tt
Unread-elsewhere cleared r r' away u = tt
Unread-elsewhere unread r r' away u = absurd (away u)
Unread-elsewhere (signalling kept) r r' away u = absurd (away u)

Step-body : {n : ℕ} {s t : Connection} → Step n s t → Inv n s → Unread t.last t.reader
Step-body (get i h e p b) inv = inv.body
Step-body (pass_over p b) inv = inv.body
Step-body (close_pooled p) inv = inv.body
Step-body (count i h e) inv = inv.body
Step-body (write_fails i h e) inv = inv.body
Step-body (enqueue i h e r) inv = inv.body
Step-body (receive i h e a) inv = inv.body
Step-body (uncount i h e) inv = inv.body
Step-body {s} (close_idle r e) inv = Unread-elsewhere s.last s.reader stopped (cc) inv.body
Step-body {s} (go_on r e) inv = Unread-elsewhere s.last s.reader awaiting (cc) inv.body
Step-body {s} (take {i} r q) inv = Unread-elsewhere s.last s.reader (closing i) (cc) inv.body
Step-body (close_last r) inv = tt
Step-body {s} (close_blocks {i} true r l k) inv =
    Unread-elsewhere s.last s.reader (blocked i) (cc) inv.body
Step-body {s} (close_blocks {i} false r l k) inv =
    Unread-elsewhere s.last s.reader (blocked i) (cc) inv.body
Step-body {s} (read_fails {i} r) inv =
    Unread-elsewhere s.last s.reader (replying false i) (cc) inv.body
Step-body {s} (last_response r) inv = Unread-elsewhere s.last s.reader stopped (cc) inv.body
Step-body {s} (without_body {i} true r k) inv =
    Unread-elsewhere s.last s.reader (replying true i) (cc) inv.body
Step-body {s} (without_body {i} false r k) inv =
    Unread-elsewhere s.last s.reader (replying false i) (cc) inv.body
Step-body {s} (reply {kept} r) inv =
    Unread-elsewhere s.last s.reader (next_round kept) (cc) inv.body
Step-body (with_body r) inv = refl
Step-body {s} (signal true l k) inv = subst (λ b. Unread b s.reader) l inv.body
Step-body {s} (signal false l k) inv = subst (λ b. Unread b s.reader) l inv.body
Step-body (meet r l) inv = tt
Step-body (clear l) inv = tt

pub Step-Inv : {n : ℕ} {s t : Connection} → Step n s t → Inv n s → Inv n t
Step-Inv st inv = record {
  counts = Step-counts st inv;
  placed = Step-placed st inv;
  body = Step-body st inv;
}

-- In every state that `n` callers and the read loop can reach from a fresh connection, in any
-- interleaving: numExpectedResponses is the number of callers between its increment and its
-- decrement, with those that failed to write; a caller that waits has its request, or the answer to
-- it, in exactly one place, and no other caller has one anywhere; and while a response body is
-- unread, or its end is being signalled, the read loop is not reading from the connection.
pub Reach-Inv : {n : ℕ} {s : Connection} → Reach n fresh s → Inv n s
Reach-Inv {n} here = fresh-Inv n
Reach-Inv (later r st) = Step-Inv st (Reach-Inv r)
