-- ===== src/Tests/Pooling.antt =====
-- The idle connections, with connection 1 broken and the others not.
use cffi_proxy.Base.{
  ◌≡◌, refl, Bool-cases, true, false, some, List, [], ◌∷◌, Text, ◌==◌, text_eq, inl, inr,
}
use cffi_proxy.Action.{ok}
use cffi_proxy.Http.Headers.{lookup}
use cffi_proxy.Transport.Pool.{
  ConnId, Transport, pos, listed, put_idle_conn, close_idle_connections,
}
use cffi_proxy.Transport.Pool.Reuse.{stack, Takes, NoEmptyList, get_idle_conn-Takes}
use cffi_proxy.Transport.Pool.Closing.{pooled, close_idle_connections-closes}
use cffi_proxy.Transport.Pool.Bounds.{Pushed, put_idle_conn-Pushed}

abbrev host_a : Text
host_a = 97 ∷ []

abbrev small_pool : List ConnId → Transport
small_pool cs = record {
  idle_conn = some ((host_a, cs) ∷ []);
  conns = λ c. record { cache_key = host_a; broken = c == 1 };
  disable_keep_alives = false;
  max_idle_conns_per_host = pos 0;
}

small_pool-NoEmptyList : (c : ConnId) (cs : List ConnId) → NoEmptyList (small_pool (c ∷ cs))
unfolding lookup
small_pool-NoEmptyList c cs key = elim (Bool-cases (text_eq host_a key)) [
  | inl same ↦ rw same
  | inr other ↦ rw other
]

get_idle_conn-Takes_example :
    Takes host_a (small_pool (0 ∷ 1 ∷ [])) (stack (small_pool (0 ∷ 1 ∷ [])) host_a)
get_idle_conn-Takes_example =
    get_idle_conn-Takes host_a (small_pool (0 ∷ 1 ∷ [])) (small_pool-NoEmptyList 0 (1 ∷ []))

put_idle_conn-Pushed_example :
    let (out, t') = put_idle_conn 2 (small_pool (0 ∷ [])) in
    (out ≡ ok true) × Pushed 2 (small_pool (0 ∷ [])) t'
unfolding listed lookup text_eq
put_idle_conn-Pushed_example =
    put_idle_conn-Pushed 2 (small_pool (0 ∷ [])) ((host_a, 0 ∷ []) ∷ []) refl

close_idle_connections-closes_example :
    ((close_idle_connections (small_pool (0 ∷ 2 ∷ []))).conns 2).broken ≡ true
unfolding pooled
close_idle_connections-closes_example =
    (close_idle_connections-closes (small_pool (0 ∷ 2 ∷ [])) 2).0
