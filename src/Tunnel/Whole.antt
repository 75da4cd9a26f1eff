-- ===== src/Tunnel/Whole.antt =====
-- What a tunnel delivers.
use cffi_proxy.Base.{Bool, true, false, ◌≡◌, ◌≢◌, refl, sym, ap, ◌∙◌, Text, [], ◌++◌, append_assoc}
use cffi_proxy.Tunnel.{
  Shutting, after_first, Copying, Tunnel, set_way, Move, copy, finish, fail, shut, close_after_both,
  close_after_first, opened, Reachable, at_start, and_then,
}

-- A direction delivers what was sent, in order; if it has ended without an error, all of it; and it is
-- shut only after it has ended.
pub record Delivers (sent : Text) (c : Copying) : Type 0 where
  pub in_order : c.taken ++ c.unread ≡ sent
  pub whole : c.runs ≡ false → c.failed ≡ false → c.unread ≡ []
  pub shut_last : c.is_shut ≡ true → c.runs ≡ false

pub record Sound (how : Shutting) (sent : Bool → Text) (t : Tunnel) : Type 0 where
  pub ways : (d : Bool) → Delivers (sent d) (t.way d)
  pub closed_last : how ≢ after_first → t.is_closed ≡ true → (d : Bool) → (t.way d).runs ≡ false

-- One direction may change to another that delivers, if it only stops.
Sound-set_way :
    {how : Shutting} {sent : Bool → Text} {t : Tunnel} (d : Bool) (c : Copying)
    → Sound how sent t
    → Delivers (sent d) c
    → ((t.way d).runs ≡ false → c.runs ≡ false)
    → Sound how sent (set_way d c t)
Sound-set_way {sent = sent} {t = t} true c s new stops = record {
  ways = λ d. elim d as (λ k. Delivers (sent k) ((set_way true c t).way k)) [
    | true ↦ new
    | false ↦ s.ways false
  ];
  closed_last = λ m e d. elim d as (λ k. ((set_way true c t).way k).runs ≡ false) [
    | true ↦ stops (s.closed_last m e true)
    | false ↦ s.closed_last m e false
  ];
}
Sound-set_way {sent = sent} {t = t} false c s new stops = record {
  ways = λ d. elim d as (λ k. Delivers (sent k) ((set_way false c t).way k)) [
    | true ↦ s.ways true
    | false ↦ new
  ];
  closed_last = λ m e d. elim d as (λ k. ((set_way false c t).way k).runs ≡ false) [
    | true ↦ s.closed_last m e true
    | false ↦ stops (s.closed_last m e false)
  ];
}

Move-Sound :
    {how : Shutting} {sent : Bool → Text} {t u : Tunnel}
    → Move how t u
    → Sound how sent t
    → Sound how sent u
Move-Sound {sent = sent} {t = t} (copy d piece rest r e) s =
    let way = s.ways d in
    Sound-set_way d _ s
      (record {
        in_order =
            append_assoc (t.way d).taken piece rest
            ∙ ap (λ (x : Text). (t.way d).taken ++ x) (sym e)
            ∙ way.in_order;
        whole = λ stopped ok. cc;
        shut_last = way.shut_last;
      })
      (λ stopped. stopped)
Move-Sound {t = t} (finish d r e) s =
    let way = s.ways d in
    Sound-set_way d _ s
      (record { in_order = way.in_order; whole = λ stopped ok. e; shut_last = λ x. refl })
      (λ x. refl)
Move-Sound {t = t} (fail d r) s =
    let way = s.ways d in
    Sound-set_way d _ s
      (record { in_order = way.in_order; whole = λ stopped ok. cc; shut_last = λ x. refl })
      (λ x. refl)
Move-Sound {t = t} (shut d h r) s =
    let way = s.ways d in
    Sound-set_way d _ s (record { in_order = way.in_order; whole = way.whole; shut_last = λ x. r })
      (λ stopped. stopped)
Move-Sound {t = t} (close_after_both h r r') s = record {
  ways = s.ways;
  closed_last = λ m e d. elim d as (λ k. (t.way k).runs ≡ false) [ true ↦ r | false ↦ r' ];
}
Move-Sound (close_after_first d h r) s = record {
  ways = s.ways;
  closed_last = λ m e d'. absurd (m h);
}

opened-Sound : (how : Shutting) (sent : Bool → Text) → Sound how sent (opened sent)
opened-Sound how sent = record {
  ways = λ d. record { in_order = refl; whole = λ a b. cc; shut_last = λ a. cc };
  closed_last = λ m e d. cc;
}

-- In every state that the two copies of a tunnel can reach, in any interleaving and with any errors:
-- what each side has taken is a first part of what the other has sent, in order; a copy that has ended
-- without an error has delivered all of it; a direction is shut only after its copy has ended; and,
-- but for websockets, the connections are closed only after both copies have ended.
pub Reachable-Sound :
    {how : Shutting} {sent : Bool → Text} {t : Tunnel}
    → Reachable how (opened sent) t
    → Sound how sent t
Reachable-Sound {how} {sent} at_start = opened-Sound how sent
Reachable-Sound (and_then r st) = Move-Sound st (Reachable-Sound r)
