-- ===== src/Tests/Sharing.antt =====
-- The connections of the transport and the relays of HTTP/2, at small inputs.
use cffi_proxy.Base.{
  codes, length, ◌≤◌, sym, ap, ◌∙◌, ◌≡◌, refl, true, false, none, some, [], ◌∷◌, Text, arith, Bool,
  Bool-cases, inl, inr, ◌==◌, text_eq, eq_of_text_eq,
}
use cffi_proxy.Action.{ok, pure}
use cffi_proxy.Http.Headers.{lookup}
use cffi_proxy.Transport.Pool.{Transport, pos, listed, get_idle_conn, get_idle_loop}
use cffi_proxy.Transport.Pool.Reuse.{take_alive, stack, NoEmptyList}
use cffi_proxy.Transport.Method.{ConnectMethod, to_string, addr}
use cffi_proxy.Transport.Connection.{
  Connection, owning, get, pass_over, waiting, counted, stopped, awaiting, closing, reading,
  at_body, peeking, unread, no_body, signalled, move, answer, Reach, fresh, here, later, count,
  enqueue, go_on, take, close_last, with_body, signal, meet,
}
use cffi_proxy.Transport.Connection.Invariant.{Inv, Reach-Inv}
use cffi_proxy.Transport.Connection.Exclusive.{Exclusive, Reach-Exclusive}
use cffi_proxy.Transport.Connection.Waiting.{Stranded, Reach-Stranded}
use cffi_proxy.Transport.BodySignal.{run, armed, reads, closes}
use cffi_proxy.Transport.BodySignal.Once.{ends, calls-armed}
use cffi_proxy.Auth.{split_first}
use cffi_proxy.Transport.Dialling.{Outside, Wiring, get_conn, dial_addr, closed, dialled}
use cffi_proxy.Transport.Dialling.Failing.{get_conn_refused}
use cffi_proxy.Transport.Dialling.Keyed.{Keyed, PoolOk, member, get_conn_reused}
use cffi_proxy.H2.{data_frame, go_away_frame, ping_frame}
use cffi_proxy.Tests.Values.{small_url}
use cffi_proxy.Tunnel.{
  Tunnel, Reachable, at_start, and_then, opened, set_way, after_both, copy, finish, fail,
  close_after_both,
}
use cffi_proxy.Tunnel.Whole.{Sound, Reachable-Sound}
use cffi_proxy.H2.Relay.{Relays, proxy_frames-Relays}

-- One caller sends its request, and the read loop reads a response with a body, up to its end.
abbrev asked : Connection
asked =
    let s₁ = move 0 owning (record fresh { pooled = 0 }) in
    let s₂ = record (move 0 counted (record s₁ { expected = 1 })) { reader = awaiting } in
    move 0 waiting (record s₂ { queue = 0 ∷ [] })

abbrev at_end : Connection
at_end =
    let s₁ = record asked { reader = closing 0; queue = [] } in
    let s₂ = record s₁ { reader = reading 0; last = no_body } in
    let s₃ = answer 0 (record s₂ { reader = at_body; last = unread }) in
    record s₃ { pooled = 1; reader = peeking; last = signalled }

Reach-asked : Reach 1 fresh asked
Reach-asked =
    later
      (later
        (later (later here (get 0 (omega arith) refl (omega arith) refl))
          (count 0 (omega arith) refl))
        (go_on refl (omega arith)))
      (enqueue 0 (omega arith) refl (omega arith))

Reach-at_end : Reach 1 fresh at_end
Reach-at_end =
    later
      (later (later (later (later Reach-asked (take refl refl)) (close_last refl)) (with_body refl))
        (signal true refl refl))
      (meet refl refl)

Reach-Inv_example : Inv 1 at_end
Reach-Inv_example = Reach-Inv Reach-at_end

Reach-Exclusive_example : Exclusive 1 asked × (length asked.queue ≤ 1)
Reach-Exclusive_example = Reach-Exclusive Reach-asked

-- One caller has sent its request to a read loop that has stopped.
abbrev stranded : Connection
stranded =
    let s₁ = record fresh { reader = stopped; broken = true; pooled = 1 } in
    move 0 waiting (record s₁ { queue = 0 ∷ []; expected = 1 })

Reach-Stranded_example : Stranded 0 (record stranded { pooled = 0 })
Reach-Stranded_example =
    Reach-Stranded {n = 1} {s = stranded}
      (record { stopped_reader = refl; still_waiting = refl; no_answer = refl })
      (later here (pass_over (omega arith) refl))

calls-armed_example : (run (reads 3 false ∷ closes none ∷ closes none ∷ []) armed).calls ≡ 1
unfolding ends
calls-armed_example = calls-armed (reads 3 false ∷ closes none ∷ closes none ∷ [])

proxy_frames-Relays_example :
    Relays (go_away_frame 0 3 0 [] ∷ data_frame 1 true [] ∷ ping_frame true [] ∷ []) [] 4
proxy_frames-Relays_example =
    proxy_frames-Relays (go_away_frame 0 3 0 [] ∷ data_frame 1 true [] ∷ ping_frame true [] ∷ []) []
      4 (omega arith)

-- A direct connect method, its key, and a pool with connection 0 idle, and 1, which is broken, above it.
abbrev direct : ConnectMethod
direct = record { proxy_url = none; target_scheme = 104 ∷ []; target_addr = 97 ∷ [] }

abbrev direct_key : Text
direct_key = 124 ∷ 104 ∷ 124 ∷ 97 ∷ []

abbrev keyed_pool : Transport
keyed_pool = record {
  idle_conn = some ((direct_key, 0 ∷ 1 ∷ []) ∷ []);
  conns = λ c. record { cache_key = direct_key; broken = c == 1 };
  disable_keep_alives = false;
  max_idle_conns_per_host = pos 0;
}

keyed_pool-NoEmptyList : NoEmptyList keyed_pool
unfolding lookup
keyed_pool-NoEmptyList key = elim (Bool-cases (text_eq direct_key key)) [
  | inl same ↦ rw same
  | inr other ↦ rw other
]

stack-keyed_pool : (key : Text) → text_eq direct_key key ≡ false → stack keyed_pool key ≡ []
unfolding listed lookup
stack-keyed_pool key other = rw other

keyed_pool-Keyed : Keyed keyed_pool
keyed_pool-Keyed key c h = elim (Bool-cases (text_eq direct_key key)) [
  | inl same ↦ eq_of_text_eq direct_key key same
  | inr other ↦ cc (sym (ap (member c) (stack-keyed_pool key other)) ∙ h)
]

abbrev small_outside : Outside (Unit {0})
small_outside = record {
  url_string = λ u. u.host;
  user_of = λ u. none;
  encode = λ t. t;
  quote = λ t. t;
  resolve = λ a. none;
  custom_dial = none;
  dial_tcp = λ a. pure (0, none);
  connect = λ r c. pure ((200, []), none);
  tls_client = λ c. pure c;
  handshake = λ c. pure none;
  skip_verify = true;
  verify = λ c h. none;
}

abbrev small_wiring : Wiring (Unit {0})
small_wiring = record {
  pool = keyed_pool;
  details = λ c. record { conn = 0; host = []; is_proxy = false; proxy_auth = none };
  next = 2;
  log = [];
  env = tt;
}

get_conn_reused_example :
    (w : Wiring (Unit {0})) × (get_conn small_outside direct small_wiring ≡ (ok (some 0, none), w))
    × (((w.pool).conns 0).cache_key ≡ to_string small_outside.url_string direct)
    × (((w.pool).conns 0).broken ≡ false)
    × (w.log ≡ small_wiring.log)
    × PoolOk w.pool
unfolding take_alive listed lookup to_string text_eq codes
get_conn_reused_example =
    get_conn_reused small_outside direct small_wiring 0
      (record { no_empty = keyed_pool-NoEmptyList; keyed = keyed_pool-Keyed }) refl

-- An https target behind a proxy that refuses.
abbrev tunnelled : ConnectMethod
tunnelled = record {
  proxy_url = some small_url;
  target_scheme = codes "https";
  target_addr = 97 ∷ [];
}

abbrev refusing : Outside (Unit {0})
refusing = record small_outside { connect = λ r c. pure ((407, codes "407 No"), none) }

get_conn_refused_example : get_conn refusing tunnelled small_wiring ≡ (
  ok (none, some (codes "No")),
  record small_wiring { log = closed 0 ∷ dialled (addr tunnelled) ∷ [] },
)
unfolding lookup to_string text_eq codes split_first dial_addr get_idle_conn get_idle_loop
get_conn_refused_example =
    get_conn_refused refusing tunnelled 0 407 (codes "407 No") none small_wiring
      (record small_wiring { log = dialled (addr tunnelled) ∷ [] })
      (record small_wiring { log = dialled (addr tunnelled) ∷ [] }) keyed_pool refl refl refl refl
      refl

-- The client sends two bytes and the target nothing. One byte is copied, then that copy fails; the
-- other comes to its end, and both connections are closed.
abbrev two_bytes : Bool → Text
two_bytes = λ d. elim d [ true ↦ 65 ∷ 66 ∷ [] | false ↦ [] ]

abbrev one_copied : Tunnel
one_copied =
    let t = opened two_bytes in
    set_way true (record (t.way true) { unread = 66 ∷ []; taken = 65 ∷ [] }) t

abbrev both_ended : Tunnel
both_ended =
    let t = one_copied in
    let u = set_way true (record (t.way true) { runs = false; failed = true }) t in
    set_way false (record (u.way false) { runs = false }) u

Reachable-both_ended :
    Reachable after_both (opened two_bytes) (record both_ended { is_closed = true })
Reachable-both_ended =
    and_then
      (and_then
        (and_then (and_then at_start (copy true (65 ∷ []) (66 ∷ []) refl refl)) (fail true refl))
        (finish false refl refl))
      (close_after_both refl refl refl)

Reachable-Sound_example : Sound after_both two_bytes (record both_ended { is_closed = true })
Reachable-Sound_example = Reachable-Sound Reachable-both_ended
