-- ===== src/Transport/Pool.antt =====
-- goproxy/transport/transport.go, the idle connections: putIdleConn, getIdleConn and
-- CloseIdleConnections. Each runs under the transport's lock, so each is one step.
pub mod Bounds
pub mod Closing
pub mod Reuse
use cffi_proxy.Base.{
  ℕ, zero, suc, Bool, true, false, ◌||◌, ◌≡◌, Option, none, some, Text, List, [], ◌∷◌, ◌++◌, length,
  leb, ltb, ◌==◌, if◌then◌else◌,
}
use cffi_proxy.Base.Maps.{Map, lookup, store, delete}
use cffi_proxy.Action.{Outcome, ok, panics, nil_map_write, slice_bounds}

-- A *persistConn, by identity.
abbrev pub ConnId : Type 0
ConnId = ℕ

pub record PersistConn : Type 0 where
  pub cache_key : Text
  pub broken : Bool

-- An int: `negsuc n` is -(n + 1).
pub data ℤ : Type 0 where
  pos : ℕ → ℤ
  negsuc : ℕ → ℤ

-- The transport's pool, with the connections that its pointers name; a nil map is `none`.
pub record Transport : Type 0 where
  pub idle_conn : Option (Map (List ConnId))
  pub conns : ConnId → PersistConn
  pub disable_keep_alives : Bool
  pub max_idle_conns_per_host : ℤ

abbrev pub default_max_idle_conns_per_host : ℕ
default_max_idle_conns_per_host = 2

-- persistConn.close, under its own lock.
abbrev pub close : ConnId → Transport → Transport
close c t = record t {
  conns = λ d. if c == d then record (t.conns c) { broken = true } else t.conns d;
}

abbrev pub is_negative : ℤ → Bool
is_negative (pos n) = false
is_negative (negsuc n) = true

-- `max`: the setting, or the default if that is zero. It is asked for if the setting is not negsuc.
abbrev pub limit : ℤ → ℕ
limit (pos zero) = default_max_idle_conns_per_host
limit (pos (suc n)) = suc n
limit (negsuc n) = 0

abbrev pub or_none : Option (List ConnId) → List ConnId
or_none none = []
or_none (some cs) = cs

-- What is stored under a key; a nil map reads as an empty one.
unfoldable pub listed : Option (Map (List ConnId)) → Text → List ConnId
listed none key = []
listed (some m) key = or_none (lookup key m)

-- putIdleConn
unfoldable pub put_idle_conn : ConnId → Transport → Outcome Bool × Transport
put_idle_conn c t =
    let key = (t.conns c).cache_key in
    if t.disable_keep_alives || is_negative t.max_idle_conns_per_host
    then (ok false, close c t)
    else if (t.conns c).broken
    then (ok false, t)
    else if leb (limit t.max_idle_conns_per_host) (length (listed t.idle_conn key))
    then (ok false, close c t)
    else elim t.idle_conn [
      | none ↦ (panics nil_map_write, t)
      | some m ↦
          (ok true, record t { idle_conn = some (store key (listed (some m) key ++ c ∷ []) m) })
    ]

-- pconns[len-1] and pconns[0:len-1] of a list that is not empty.
unfoldable pub last_of : ConnId → List ConnId → ConnId
last_of c [] = c
last_of c (d ∷ cs) = last_of d cs

unfoldable pub init_of : ConnId → List ConnId → List ConnId
init_of c [] = []
init_of c (d ∷ cs) = c ∷ init_of d cs

-- One round of getIdleConn's loop on the list that it finds: the connection that it takes, and the map after it.
-- Of an empty list the code indexes the element before the first.
abbrev pub take_last : Text → Map (List ConnId) → List ConnId → Option (ConnId × Map (List ConnId))
take_last key m [] = none
take_last key m (c ∷ []) = some (c, delete key m)
take_last key m (c ∷ d ∷ cs) = some (last_of d cs, store key (init_of c (d ∷ cs)) m)

-- The loop; `fuel` bounds the rounds.
unfoldable pub get_idle_loop :
    ℕ
    → Text
    → (ConnId → PersistConn)
    → Map (List ConnId)
    → Option (Outcome (Option ConnId) × Map (List ConnId))
unfolding last_of init_of
get_idle_loop zero key conns m = none
get_idle_loop (suc fuel) key conns m = elim (lookup key m) [
  | none ↦ some (ok none, m)
  | some cs ↦ elim (take_last key m cs) [
    | none ↦ some (panics slice_bounds, m)
    | some (c, m') ↦
        let rest = get_idle_loop fuel key conns m' in
        if (conns c).broken then rest else some (ok (some c), m')
  ]
]

-- `if t.idleConn == nil { t.idleConn = make(…) }`
abbrev pub made : Option (Map (List ConnId)) → Map (List ConnId)
made none = []
made (some m) = m

-- getIdleConn, for the key of the connect method. Every round shortens the list under the key.
unfoldable pub get_idle_conn : Text → Transport → Option (Outcome (Option ConnId) × Transport)
get_idle_conn key t =
    let m = made t.idle_conn in
    elim (get_idle_loop (suc (length (listed (some m) key))) key t.conns m) [
      | none ↦ none
      | some (out, m') ↦ some (out, record t { idle_conn = some m' })
    ]

close_list : List ConnId → Transport → Transport
close_list [] t = t
close_list (c ∷ cs) t = close_list cs (close c t)

close_lists : Map (List ConnId) → Transport → Transport
unfolding close_list
close_lists [] t = t
close_lists ((k, cs) ∷ m) t = close_lists m (close_list cs t)

-- CloseIdleConnections
unfoldable pub close_idle_connections : Transport → Transport
unfolding close_lists
close_idle_connections t = elim t.idle_conn [
  | none ↦ t
  | some m ↦ record (close_lists m t) { idle_conn = some [] }
]
