-- ===== src/Transport/Dialling/Failing.antt =====
-- getConn when it has no idle connection: refusals, and new connections.
use cffi_proxy.Base.{
  ℕ, ◌≡◌, refl, ◌∙◌, true, none, some, Text, text_eq, codes, ◌==◌, ◌&&◌, is_some, Option, ◌||◌, not,
  arith,
}
use cffi_proxy.Action.{Outcome, ok, panics, slice_bounds}
use cffi_proxy.Http.{ConnRef, Err}
use cffi_proxy.Auth.{split_first}
use cffi_proxy.Transport.Pool.{ConnId, Transport, get_idle_conn}
use cffi_proxy.Transport.Method.{ConnectMethod, to_string, addr}
use cffi_proxy.Transport.Dialling.{
  Outside, Wiring, closed, ConnectReq, proxy_auth, non_empty, idle_conn, new_conn, get_conn,
  dial_addr, set_up, through_proxy, refusal, log_wired,
}

module _ {E : Type 0} (out : Outside E) (cm : ConnectMethod) where
  get_conn_not_found :
      (w : Wiring E) (t' : Transport)
      → get_idle_conn (to_string out.url_string cm) w.pool ≡ some (ok none, t')
      → get_conn out cm w ≡ new_conn out cm (record w { pool = t' })
  unfolding get_conn idle_conn
  get_conn_not_found w t' run = rw (get_conn, idle_conn, run) refl

  -- The CONNECT that the proxy gets.
  abbrev pub asked : ConnectReq
  asked = record { target = cm.target_addr; authorization = non_empty (proxy_auth out cm) }

  -- How getConn ends after a proxy's answer to CONNECT that gives no connection: with the error of
  -- reading it; else with what follows the first space of the status; else, as `f[1]`, with a panic.
  abbrev pub ending : Option Err → Text → Outcome (Option ConnId × Option Err)
  ending (some e) status = ok (none, some e)
  ending none status = elim (split_first 32 status) [
    | none ↦ panics slice_bounds
    | some (code, reason) ↦ ok (none, some reason)
  ]

  set_up_fails :
      (conn : ConnRef) (n : ℕ) (status : Text) (err : Option Err) (w w' : Wiring E)
      → (is_some cm.proxy_url && text_eq cm.target_scheme (codes "https")) ≡ true
      → out.connect asked conn w ≡ (ok ((n, status), err), w')
      → (is_some err || not (n == 200)) ≡ true
      → set_up out cm conn w ≡ (ending err status, log_wired (closed conn) w')
  unfolding set_up through_proxy refusal
  set_up_fails conn n status err w w' tunnelled answers fails = ground (arith, tunnelled, answers)

  new_conn_steps :
      (conn : ConnRef) (w w' : Wiring E)
      → dial_addr out (addr cm) w ≡ (ok (conn, none), w')
      → new_conn out cm w ≡ set_up out cm conn w'
  unfolding new_conn
  new_conn_steps conn w w' dials = rw (dials, new_conn) refl

  -- If there is no idle connection for an https target behind a proxy, the proxy is dialled, and its
  -- answer to CONNECT cannot be read or has another status than 200, then after the answer nothing is
  -- done but to close the dialled connection, once. getConn's error is that of reading the answer, or
  -- else what follows the first space of the proxy's status; if this has no space, getConn panics.
  pub get_conn_refused :
      (conn : ConnRef) (n : ℕ) (status : Text) (err : Option Err) (w w₁ w₂ : Wiring E)
      (t' : Transport)
      → get_idle_conn (to_string out.url_string cm) w.pool ≡ some (ok none, t')
      → (is_some cm.proxy_url && text_eq cm.target_scheme (codes "https")) ≡ true
      → dial_addr out (addr cm) (record w { pool = t' }) ≡ (ok (conn, none), w₁)
      → out.connect asked conn w₁ ≡ (ok ((n, status), err), w₂)
      → (is_some err || not (n == 200)) ≡ true
      → get_conn out cm w ≡ (ending err status, log_wired (closed conn) w₂)
  get_conn_refused conn n status err w w₁ w₂ t' idle tunnelled dials answers fails =
      get_conn_not_found w t' idle
      ∙ new_conn_steps conn (record w { pool = t' }) w₁ dials
      ∙ set_up_fails conn n status err w₁ w₂ tunnelled answers fails
