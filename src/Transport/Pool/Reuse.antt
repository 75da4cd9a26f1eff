-- ===== src/Transport/Pool/Reuse.antt =====
-- The pool as a stack for each key: getIdleConn pops until it finds a connection that is not
-- broken, and putIdleConn pushes.
use mathlib.Core.List.{reverse, reverse-cons, reverse-reverse}
use cffi_proxy.Base.{
  ℕ, zero, suc, ◌<◌, false, ◌≡◌, refl, sym, ap, ◌∙◌, Option, none, some, Text, List, [], ◌∷◌, ◌++◌,
  length, arith, text_eq, text_eq_iff, if◌then◌else◌, Bool-cases, inl, inr, text_eq_refl, subst,
  length-reverse,
}
use cffi_proxy.Base.Maps.{Map, lookup, store, delete, lookup-store, lookup-delete}
use cffi_proxy.Action.{ok}
use cffi_proxy.Transport.Pool.{
  ConnId, PersistConn, Transport, listed, get_idle_loop, get_idle_conn, last_of, init_of, take_last,
  or_none, made,
}

-- What a stack of idle connections gives: the first that is not broken, and what is below it.
unfoldable pub take_alive : (ConnId → PersistConn) → List ConnId → Option ConnId × List ConnId
take_alive conns [] = (none, [])
take_alive conns (c ∷ cs) = if (conns c).broken then take_alive conns cs else (some c, cs)

-- The newest first.
abbrev pub stack : Transport → Text → List ConnId
stack t key = reverse (listed t.idle_conn key)

-- How a list is stored: an empty one has no entry.
abbrev pub entry : List ConnId → Option (List ConnId)
entry [] = none
entry (c ∷ cs) = some (c ∷ cs)

abbrev put_list : Text → List ConnId → Map (List ConnId) → Map (List ConnId)
put_list key [] m = delete key m
put_list key (c ∷ cs) m = store key (c ∷ cs) m

lookup-put_list :
    (key j : Text) (cs : List ConnId) (m : Map (List ConnId))
    → lookup j (put_list key cs m) ≡ (if text_eq key j then entry cs else lookup j m)
lookup-put_list key j [] m = lookup-delete key j m
lookup-put_list key j (c ∷ cs) m = lookup-store key j (c ∷ cs) m

last_of-snoc : (c d : ConnId) (cs : List ConnId) → last_of c (cs ++ d ∷ []) ≡ d
unfolding last_of
last_of-snoc c d [] = refl
last_of-snoc c d (e ∷ cs) = last_of-snoc e d cs

init_of-snoc : (c d : ConnId) (cs : List ConnId) → init_of c (cs ++ d ∷ []) ≡ c ∷ cs
unfolding init_of
init_of-snoc c d [] = refl
init_of-snoc c d (e ∷ cs) = ap (◌∷◌ c) (init_of-snoc e d cs)

pub entry-snoc : (cs : List ConnId) (d : ConnId) → entry (cs ++ d ∷ []) ≡ some (cs ++ d ∷ [])
entry-snoc [] d = refl
entry-snoc (c ∷ cs) d = refl

take_last-snoc :
    (key : Text) (m : Map (List ConnId)) (cs : List ConnId) (d : ConnId)
    → take_last key m (cs ++ d ∷ []) ≡ some (d, put_list key cs m)
unfolding last_of init_of
take_last-snoc key m [] d = refl
take_last-snoc key m (c ∷ []) d = refl
take_last-snoc key m (c ∷ e ∷ cs) d = rw (last_of-snoc e d cs, init_of-snoc c d (e ∷ cs))

get_idle_loop-snoc :
    (fuel : ℕ) (key : Text) (conns : ConnId → PersistConn) (m : Map (List ConnId))
    (cs : List ConnId) (d : ConnId)
    → lookup key m ≡ some (cs ++ d ∷ [])
    → get_idle_loop (suc fuel) key conns m ≡ (
        if (conns d).broken
        then get_idle_loop fuel key conns (put_list key cs m)
        else some (ok (some d), put_list key cs m))
unfolding get_idle_loop
get_idle_loop-snoc fuel key conns m cs d e = rw (e, get_idle_loop, take_last-snoc key m cs d)

-- What a loop leaves under every key.
abbrev Leaves : Text → List ConnId → Map (List ConnId) → Map (List ConnId) → Type 0
Leaves key cs m m' =
    (j : Text) → lookup j m' ≡ (if text_eq key j then entry (reverse cs) else lookup j m)

Leaves-put_list :
    (key : Text) (xs cs : List ConnId) (m m' : Map (List ConnId))
    → Leaves key cs (put_list key xs m) m'
    → Leaves key cs m m'
Leaves-put_list key xs cs m m' l j = ground (arith, l j, lookup-put_list key j xs m)

abbrev LoopResult : ℕ → Text → (ConnId → PersistConn) → Map (List ConnId) → List ConnId → Type 0
LoopResult fuel key conns m cs =
    (m' : Map (List ConnId)) × (get_idle_loop fuel key conns m
      ≡ some (ok (take_alive conns cs).0, m'))
    × Leaves key (take_alive conns cs).1 m m'

loop_on_empty :
    (fuel : ℕ) (key : Text) (conns : ConnId → PersistConn) (m : Map (List ConnId))
    → lookup key m ≡ none
    → LoopResult (suc fuel) key conns m []
unfolding get_idle_loop take_alive
loop_on_empty fuel key conns m e =
    (m, rw (e, get_idle_loop), λ j. ground (arith, text_eq_iff key j))

loop_step :
    (fuel : ℕ) (key : Text) (conns : ConnId → PersistConn) (m : Map (List ConnId))
    (cs : List ConnId) (d : ConnId)
    → lookup key m ≡ some (reverse cs ++ d ∷ [])
    → LoopResult fuel key conns (put_list key (reverse cs) m) cs
    → LoopResult (suc fuel) key conns m (d ∷ cs)
unfolding take_alive
loop_step fuel key conns m cs d e (m', run, left) = elim (Bool-cases (conns d).broken) [
  | inl bad ↦ rw bad (
    m',
    get_idle_loop-snoc fuel key conns m (reverse cs) d e ∙ rw bad run,
    Leaves-put_list key (reverse cs) (take_alive conns cs).1 m m' left,
  )
  | inr good ↦ rw good (
    put_list key (reverse cs) m,
    get_idle_loop-snoc fuel key conns m (reverse cs) d e ∙ rw good,
    λ j. lookup-put_list key j (reverse cs) m,
  )
]

-- The loop, on a list that is stored under the key, leaves what the stack leaves.
get_idle_loop-take_alive :
    (cs : List ConnId) (fuel : ℕ) (key : Text) (conns : ConnId → PersistConn)
    (m : Map (List ConnId))
    → length cs < fuel
    → lookup key m ≡ entry (reverse cs)
    → LoopResult fuel key conns m cs
get_idle_loop-take_alive cs zero key conns m h e = absurd (omega arith)
get_idle_loop-take_alive [] (suc fuel) key conns m h e = loop_on_empty fuel key conns m e
get_idle_loop-take_alive (d ∷ cs) (suc fuel) key conns m h e =
    loop_step fuel key conns m cs d (e ∙ ap entry (reverse-cons d cs) ∙ entry-snoc (reverse cs) d) (
      get_idle_loop-take_alive cs fuel key conns (put_list key (reverse cs) m) (omega arith)
        (lookup-put_list key key (reverse cs) m ∙ rw (text_eq_refl key)))

-- No key has an empty list: what is stored is what `entry` makes of it.
abbrev pub NoEmptyList : Transport → Type 0
NoEmptyList t =
    (key : Text) → lookup key (made t.idle_conn) ≡ entry (or_none (lookup key (made t.idle_conn)))

or_none-entry : (cs : List ConnId) → or_none (entry cs) ≡ cs
or_none-entry [] = refl
or_none-entry (c ∷ cs) = refl

listed-made :
    (o : Option (Map (List ConnId))) (key : Text) → listed o key ≡ or_none (lookup key (made o))
unfolding listed lookup
listed-made none key = refl
listed-made (some m) key = refl

listed-Leaves :
    (key : Text) (cs : List ConnId) (m m' : Map (List ConnId)) (j : Text)
    → Leaves key cs m m'
    → or_none (lookup j m') ≡ (if text_eq key j then reverse cs else or_none (lookup j m))
listed-Leaves key cs m m' j l = ground (arith, l j, or_none-entry (reverse cs))

same_Leaves :
    (key : Text) (cs : List ConnId) (m m' : Map (List ConnId))
    → Leaves key cs m m'
    → or_none (lookup key m') ≡ reverse cs
same_Leaves key cs m m' l = ground (arith, listed-Leaves key cs m m' key l, text_eq_refl key)

other_Leaves :
    (key : Text) (cs : List ConnId) (m m' : Map (List ConnId)) (j : Text)
    → text_eq key j ≡ false
    → Leaves key cs m m'
    → or_none (lookup j m') ≡ or_none (lookup j m)
other_Leaves key cs m m' j other l = ground (arith, listed-Leaves key cs m m' j l)

entry-Leaves :
    (key : Text) (cs : List ConnId) (m m' : Map (List ConnId)) (j : Text)
    → lookup j m ≡ entry (or_none (lookup j m))
    → Leaves key cs m m'
    → lookup j m' ≡ entry (or_none (lookup j m'))
entry-Leaves key cs m m' j v l =
    ground (arith, l j, or_none-entry (reverse cs), listed-Leaves key cs m m' j l)

-- What getIdleConn does for a key, if the stack of that key is `cs`.
abbrev pub Takes : Text → Transport → List ConnId → Type 0
Takes key t cs =
    (t' : Transport) × (get_idle_conn key t ≡ some (ok (take_alive t.conns cs).0, t'))
    × (stack t' key ≡ (take_alive t.conns cs).1)
    × ((j : Text) → text_eq key j ≡ false → stack t' j ≡ stack t j)
    × NoEmptyList t'
    × (t'.conns ≡ t.conns)

LoopResult-Takes :
    (key : Text) (t : Transport) (cs : List ConnId)
    → NoEmptyList t
    → LoopResult
        (suc (length (or_none (lookup key (made t.idle_conn)))))
        key
        t.conns
        (made t.idle_conn)
        cs
    → Takes key t cs
unfolding get_idle_conn listed
LoopResult-Takes key t cs v (m', run, left) = (
  record t { idle_conn = some m' },
  rw (run, get_idle_conn),
  ap reverse (same_Leaves key (take_alive t.conns cs).1 (made t.idle_conn) m' left)
      ∙ reverse-reverse (take_alive t.conns cs).1,
  λ j other. ap reverse (
      other_Leaves key (take_alive t.conns cs).1 (made t.idle_conn) m' j other left
      ∙ sym (listed-made t.idle_conn j)),
  λ j. entry-Leaves key (take_alive t.conns cs).1 (made t.idle_conn) m' j (v j) left,
  refl,
)

-- From a pool with no empty list, getIdleConn ends without a panic. It returns the newest
-- connection of its key that is not broken, if there is one; that one and the broken ones above it
-- leave the pool, the older ones stay, and so does every other key's stack. No connection changes,
-- and no key is left with an empty list.
pub get_idle_conn-Takes : (key : Text) (t : Transport) → NoEmptyList t → Takes key t (stack t key)
get_idle_conn-Takes key t v =
    let m = made t.idle_conn in
    let under = or_none (lookup key m) in
    subst (λ cs. Takes key t (reverse cs)) (sym (listed-made t.idle_conn key))
      (LoopResult-Takes key t (reverse under) v (
        get_idle_loop-take_alive (reverse under) (suc (length under)) key t.conns m
          (omega (arith, length-reverse under)) (v key ∙ ap entry (sym (reverse-reverse under)))))
