-- ===== src/Transport/Dialling/Keyed.antt =====
-- getConn gives out connections of the connect method that it is asked for.
use cffi_proxy.Base.{
  ◌≡◌, refl, sym, ap, ◌∙◌, Bool, true, false, Option, none, some, List, [], ◌∷◌, Text, text_eq, any,
  ◌==◌, arith, Bool-cases, inl, inr, eq_of_text_eq,
}
use cffi_proxy.Action.{ok}
use cffi_proxy.Transport.Pool.{ConnId, PersistConn, Transport, get_idle_conn}
use cffi_proxy.Transport.Pool.Reuse.{stack, take_alive, Takes, NoEmptyList, get_idle_conn-Takes}
use cffi_proxy.Transport.Pool.Bounds.{Pushed}
use cffi_proxy.Transport.Method.{ConnectMethod, to_string}
use cffi_proxy.Transport.Dialling.{Outside, Wiring, idle_conn, get_conn}

abbrev pub member : ConnId → List ConnId → Bool
member c cs = any (λ d. d == c) cs

-- Every idle connection stands under its own key.
abbrev pub Keyed : Transport → Type 0
Keyed t = (key : Text) (c : ConnId) → member c (stack t key) ≡ true → (t.conns c).cache_key ≡ key

take_alive-member :
    (conns : ConnId → PersistConn) (cs : List ConnId) (c : ConnId)
    → (take_alive conns cs).0 ≡ some c
    → (member c cs ≡ true) × ((conns c).broken ≡ false)
unfolding take_alive
take_alive-member conns [] c h = cc
take_alive-member conns (d ∷ cs) c h = elim (Bool-cases (conns d).broken) [
  | inl bad ↦ ground (arith, bad, take_alive-member conns cs c)
  | inr good ↦ ground (arith, good)
]

take_alive-rest :
    (conns : ConnId → PersistConn) (cs : List ConnId) (c : ConnId)
    → member c (take_alive conns cs).1 ≡ true
    → member c cs ≡ true
unfolding take_alive
take_alive-rest conns [] c h = h
take_alive-rest conns (d ∷ cs) c h = elim (Bool-cases (conns d).broken) [
  | inl bad ↦ ground (arith, bad, take_alive-rest conns cs c)
  | inr good ↦ ground (arith, good)
]

-- putIdleConn keeps connections under their keys.
pub Pushed-Keyed : (c : ConnId) (t t' : Transport) → Keyed t → Pushed c t t' → Keyed t'
Pushed-Keyed c t t' k p key d m =
    let own = (t.conns c).cache_key in
    let before : (t'.conns d).cache_key ≡ (t.conns d).cache_key =
      ap (λ (f : ConnId → PersistConn). (f d).cache_key) p.same_conns in
    elim (Bool-cases (text_eq own key)) [
      | inl same ↦
          let e = eq_of_text_eq own key same in
          let found : member d (c ∷ stack t own) ≡ true =
            ap (member d) (sym p.on_top) ∙ ap (λ (j : Text). member d (stack t' j)) e ∙ m in
          before ∙ ground (arith, found, k own d) ∙ e
      | inr other ↦ before ∙ k key d (ap (member d) (sym (p.others key other)) ∙ m)
    ]

-- What getIdleConn leaves is keyed, and what it gives has the key that it was asked for.
Takes-Keyed :
    (key : Text) (t : Transport) → Keyed t → (takes : Takes key t (stack t key)) → Keyed takes.0
Takes-Keyed key t k (t', run, under, others, filled, same) j d m =
    let before : (t'.conns d).cache_key ≡ (t.conns d).cache_key =
      ap (λ (f : ConnId → PersistConn). (f d).cache_key) same in
    elim (Bool-cases (text_eq key j)) [
      | inl here ↦
          let e = eq_of_text_eq key j here in
          let rest = ap (λ (k : Text). member d (stack t' k)) e ∙ m in
          let found : member d (stack t key) ≡ true =
            take_alive-rest t.conns (stack t key) d (ap (member d) (sym under) ∙ rest) in
          before ∙ k key d found ∙ e
      | inr other ↦ before ∙ k j d (ap (member d) (sym (others j other)) ∙ m)
    ]

-- A pool with no empty list, whose connections stand under their own keys.
pub record PoolOk (t : Transport) : Type 0 where
  pub no_empty : NoEmptyList t
  pub keyed : Keyed t

module _ {E : Type 0} (out : Outside E) where
  get_conn_found :
      (cm : ConnectMethod) (w : Wiring E) (c : ConnId) (t' : Transport)
      → get_idle_conn (to_string out.url_string cm) w.pool ≡ some (ok (some c), t')
      → get_conn out cm w ≡ (ok (some c, none), record w { pool = t' })
  unfolding get_conn idle_conn
  get_conn_found cm w c t' run = rw (get_conn, idle_conn, run) refl

  -- From a pool with no empty list, whose connections stand under their own keys: if the connect
  -- method's stack has a connection that is not broken, getConn gives the newest such. It is one of
  -- this connect method, nothing has been dialled or closed, and the pool stays as it should be.
  pub get_conn_reused :
      (cm : ConnectMethod) (w : Wiring E) (c : ConnId)
      → PoolOk w.pool
      → (take_alive (w.pool).conns (stack w.pool (to_string out.url_string cm))).0 ≡ some c
      → (w' : Wiring E) × (get_conn out cm w ≡ (ok (some c, none), w'))
        × (((w'.pool).conns c).cache_key ≡ to_string out.url_string cm)
        × (((w'.pool).conns c).broken ≡ false)
        × (w'.log ≡ w.log)
        × PoolOk w'.pool
  unfolding get_conn idle_conn
  get_conn_reused cm w c v found =
      let key = to_string out.url_string cm in
      let takes = get_idle_conn-Takes key w.pool v.no_empty in
      let (t', run, under, others, filled, same) = takes in
      let (standing, alive) = take_alive-member (w.pool).conns (stack w.pool key) c found in
      let as_before : (t'.conns c) ≡ ((w.pool).conns c) =
        ap (λ (f : ConnId → PersistConn). f c) same in
      let run' : get_idle_conn key w.pool ≡ some (ok (some c), t') =
        run ∙ ap (λ (o : Option ConnId). some (ok o, t')) found in
      (
        record w { pool = t' },
        get_conn_found cm w c t' run',
        ap (λ (p : PersistConn). p.cache_key) as_before ∙ v.keyed key c standing,
        ap (λ (p : PersistConn). p.broken) as_before ∙ alive,
        refl,
        record { no_empty = filled; keyed = Takes-Keyed key w.pool v.keyed takes },
      )
