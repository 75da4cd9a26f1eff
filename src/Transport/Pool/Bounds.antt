-- ===== src/Transport/Pool/Bounds.antt =====
-- putIdleConn: what it adds to a stack, its limit, and what it refuses.
use mathlib.Core.List.{reverse, reverse-append}
use cffi_proxy.Base.{
  ◌≤◌, true, false, ◌≡◌, refl, sym, ap, ◌∙◌, Bool, Bool-cases, inl, inr, not, ◌&&◌, ◌||◌, ltb,
  Option, some, Text, List, [], ◌∷◌, ◌++◌, length, arith, text_eq, length-append, text_eq_refl,
  length-reverse, leb, subst,
}
use cffi_proxy.Base.Maps.{Map, lookup, store, lookup-store}
use cffi_proxy.Action.{Outcome, ok}
use cffi_proxy.Transport.Pool.{
  ConnId, Transport, limit, listed, put_idle_conn, or_none, made, is_negative,
}
use cffi_proxy.Transport.Pool.Reuse.{stack, entry, entry-snoc, NoEmptyList}

-- What a successful putIdleConn has done: the connection, which is not broken, is on top of its
-- key's stack, which is within the limit; the other stacks and all connections are as they were.
pub record Pushed (c : ConnId) (t t' : Transport) : Type 0 where
  pub on_top : stack t' (t.conns c).cache_key ≡ c ∷ stack t (t.conns c).cache_key
  pub within : length (stack t' (t.conns c).cache_key) ≤ limit t.max_idle_conns_per_host
  pub alive : (t.conns c).broken ≡ false
  pub others : (j : Text) → text_eq (t.conns c).cache_key j ≡ false → stack t' j ≡ stack t j
  pub same_conns : t'.conns ≡ t.conns
  pub no_empty : NoEmptyList t → NoEmptyList t'

entry-store :
    (key j : Text) (cs : List ConnId) (c : ConnId) (m : Map (List ConnId))
    → lookup j m ≡ entry (or_none (lookup j m))
    → lookup j (store key (cs ++ c ∷ []) m)
      ≡ entry (or_none (lookup j (store key (cs ++ c ∷ []) m)))
entry-store key j cs c m v = ground (arith, lookup-store key j (cs ++ c ∷ []) m, entry-snoc cs c)

Pushed-map :
    (c : ConnId) (t : Transport) (m : Map (List ConnId))
    → t.idle_conn ≡ some m
    → (t.conns c).broken ≡ false
    → leb (limit t.max_idle_conns_per_host) (length (listed (some m) (t.conns c).cache_key)) ≡ false
    → let key = (t.conns c).cache_key in
      Pushed c t (record t { idle_conn = some (store key (listed (some m) key ++ c ∷ []) m) })
unfolding listed
Pushed-map c t m i b l =
    let key = (t.conns c).cache_key in
    let before = or_none (lookup key m) in
    let after = lookup-store key key (before ++ c ∷ []) m in
    let was : (j : Text) → listed t.idle_conn j ≡ or_none (lookup j m) =
      λ j. ap (λ (o : Option (Map (List ConnId))). listed o j) i in
    record {
      on_top =
          ap (λ (o : Option (List ConnId)). reverse (or_none o)) after
          ∙ rw (text_eq_refl key) (reverse-append before (c ∷ []))
          ∙ ap (λ (cs : List ConnId). c ∷ reverse cs) (sym (was key));
      within = ground (
        arith,
        ap (λ (o : Option (List ConnId)). length (reverse (or_none o))) after,
        text_eq_refl key,
        length-reverse (before ++ c ∷ []),
        length-append before (c ∷ []),
      );
      alive = b;
      others = λ j other.
          ap (λ (o : Option (List ConnId)). reverse (or_none o))
            (lookup-store key j (before ++ c ∷ []) m)
          ∙ rw other (ap reverse (sym (was j)));
      same_conns = refl;
      no_empty = λ v j.
          entry-store key j before c m
            (subst (λ o. lookup j (made o) ≡ entry (or_none (lookup j (made o)))) i (v j));
    }

-- Whether a connection goes into the pool: keep-alives are not disabled, the limit is not negative,
-- the connection is not broken, and its key has fewer connections than the limit.
abbrev pub takes : ConnId → Transport → Bool
takes c t =
    not (t.disable_keep_alives || is_negative t.max_idle_conns_per_host)
    && not (t.conns c).broken
    && ltb (length (listed t.idle_conn (t.conns c).cache_key)) (limit t.max_idle_conns_per_host)

-- A push, or a refusal, which leaves the pool as it is and the connection broken.
abbrev pub Returned : Bool → ConnId → Transport → Outcome Bool × Transport → Type 0
Returned true c t (out, t') = (out ≡ ok true) × Pushed c t t'
Returned false c t (out, t') =
    (out ≡ ok false) × (t'.idle_conn ≡ t.idle_conn) × ((t'.conns c).broken ≡ true)

put_idle_conn-pushes :
    (c : ConnId) (t : Transport) (m : Map (List ConnId))
    → t.idle_conn ≡ some m
    → takes c t ≡ true
    → Returned true c t (put_idle_conn c t)
unfolding put_idle_conn
put_idle_conn-pushes c t m i h = ground (arith, Pushed-map c t m i)

put_idle_conn-refuses :
    (c : ConnId) (t : Transport) (m : Map (List ConnId))
    → t.idle_conn ≡ some m
    → takes c t ≡ false
    → Returned false c t (put_idle_conn c t)
unfolding put_idle_conn
put_idle_conn-refuses c t m i h = ground arith

-- putIdleConn on a pool whose map has been made. If keep-alives are not disabled, the limit is not
-- negative, the connection is not broken and its key has fewer connections than the limit, it
-- returns true, and the connection is pushed on the stack of its key, which stays within the limit;
-- the other stacks and all connections stay as they were. In every other case it returns false,
-- leaves the pool as it is, and the connection is broken afterwards.
pub put_idle_conn-Pushed :
    (c : ConnId) (t : Transport) (m : Map (List ConnId))
    → t.idle_conn ≡ some m
    → Returned (takes c t) c t (put_idle_conn c t)
put_idle_conn-Pushed c t m i = elim (Bool-cases (takes c t)) [
  | inl taken ↦
      subst (λ b. Returned b c t (put_idle_conn c t)) (sym taken)
        (put_idle_conn-pushes c t m i taken)
  | inr not_taken ↦
      subst (λ b. Returned b c t (put_idle_conn c t)) (sym not_taken)
        (put_idle_conn-refuses c t m i not_taken)
]
