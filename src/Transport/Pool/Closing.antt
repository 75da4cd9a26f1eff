-- ===== src/Transport/Pool/Closing.antt =====
-- CloseIdleConnections: what it closes and what it leaves.
use cffi_proxy.Base.{
  ◌≡◌, refl, Bool, false, ◌||◌, some, Text, List, [], ◌∷◌, any, ◌==◌, Option-cases, inl, inr, arith,
}
use cffi_proxy.Base.Maps.{Map, lookup}
use cffi_proxy.Transport.Pool.{
  ConnId, Transport, close, close_list, close_lists, close_idle_connections, listed, made,
}
use cffi_proxy.Transport.Pool.Reuse.{stack, NoEmptyList}

-- Whether a connection stands in some list of the pool.
unfoldable pub pooled : ConnId → Map (List ConnId) → Bool
pooled c [] = false
pooled c ((k, cs) ∷ m) = any (λ d. d == c) cs || pooled c m

close-broken :
    (c d : ConnId) (t : Transport) → ((close d t).conns c).broken ≡ ((d == c) || (t.conns c).broken)
close-broken c d t = ground arith

close_list-broken :
    (c : ConnId) (cs : List ConnId) (t : Transport)
    → ((close_list cs t).conns c).broken ≡ (any (λ d. d == c) cs || (t.conns c).broken)
unfolding close_list
close_list-broken c [] t = refl
close_list-broken c (d ∷ cs) t =
    ground (arith, close_list-broken c cs (close d t), close-broken c d t)

close_lists-broken :
    (c : ConnId) (m : Map (List ConnId)) (t : Transport)
    → ((close_lists m t).conns c).broken ≡ (pooled c m || (t.conns c).broken)
unfolding close_lists pooled
close_lists-broken c [] t = refl
close_lists-broken c ((k, cs) ∷ m) t =
    ground (arith, close_lists-broken c m (close_list cs t), close_list-broken c cs t)

-- After CloseIdleConnections a connection is broken exactly if it was so before or stood in the pool,
-- and no connection is left under any key.
pub close_idle_connections-closes :
    (t : Transport) (c : ConnId)
    → let t' = close_idle_connections t in
      ((t'.conns c).broken ≡ (pooled c (made t.idle_conn) || (t.conns c).broken))
      × ((key : Text) → stack t' key ≡ [])
      × NoEmptyList t'
unfolding close_idle_connections
close_idle_connections-closes t c = elim (Option-cases t.idle_conn) [
  | inl e ↦ rw e (unfold pooled in refl, λ key. unfold listed in refl, λ key. unfold lookup in refl)
  | inr (m, e) ↦ rw e (
    close_lists-broken c m (record t { idle_conn = some m }),
    λ key. unfold listed lookup in refl,
    λ key. unfold lookup in refl,
  )
]
