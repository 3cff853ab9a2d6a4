-- ===== src/Orders/BrokerLifecycle/History.antt =====
-- Whole histories of a lifecycle (backend/app/broker_order_lifecycle.py): events in order, where a
-- refused one leaves the lifecycle as it was.
use ai_trading_platform_mobi.Prelude.{
  ◌≤◌, ◌≡◌, refl, ◌∙◌, true, false, some, List, [], ◌∷◌, ◌++◌, arith, last?, ok, err, Ensures, ◌≤ℤ◌,
  Text,
}
use ai_trading_platform_mobi.Orders.BrokerLifecycle.{
  OrderLifecycleEvent, OrderLifecycle, Outcome, moves_backwards, apply, terminal,
}
use ai_trading_platform_mobi.Orders.BrokerLifecycle.Laws.{
  IsValid, apply-IsValid, Follows, apply-Follows, apply_of_terminal,
}

after : OrderLifecycle → Outcome OrderLifecycle → OrderLifecycle
after o (ok p) = p
after o (err _) = o

unfoldable pub run : OrderLifecycle → List OrderLifecycleEvent → OrderLifecycle
unfolding after
run o [] = o
run o (e ∷ es) = run (after o (apply o e)) es

-- The timestamps never go down.
abbrev pub IsChronological : List OrderLifecycleEvent → Type 0
IsChronological [] = Unit
IsChronological (e ∷ []) = Unit
IsChronological (e ∷ f ∷ es) = (e.timestamp ≤ f.timestamp) × IsChronological (f ∷ es)

IsChronological-snoc :
    (es : List OrderLifecycleEvent) (e : OrderLifecycleEvent)
    → IsChronological es
    → moves_backwards e.timestamp (last? es) ≡ false
    → IsChronological (es ++ e ∷ [])
unfolding moves_backwards
IsChronological-snoc [] e h k = tt
IsChronological-snoc (d ∷ []) e h k = ground arith
IsChronological-snoc (c ∷ d ∷ es) e h k = (h.0, IsChronological-snoc (d ∷ es) e h.1 k)

-- What a history keeps of the lifecycle that it began with.
pub record Extends (o p : OrderLifecycle) : Type 0 where
  pub grows : o.filled_quantity ≤ℤ p.filled_quantity
  pub request_kept : p.requested_quantity ≡ o.requested_quantity
  pub id_kept : (t : Text) → o.broker_order_id ≡ some t → p.broker_order_id ≡ some t
  pub chronological : IsChronological p.events
  pub valid : IsValid p

after-Extends :
    (o : OrderLifecycle) (e : OrderLifecycleEvent) (r : Outcome OrderLifecycle)
    → IsValid o
    → IsChronological o.events
    → Ensures r (Follows o e)
    → Ensures r IsValid
    → Extends o (after o r)
unfolding after
after-Extends o e (ok p) v c f w = record {
  grows = f.grows;
  request_kept = f.request_kept;
  id_kept = f.id_kept;
  chronological = rw f.logged (IsChronological-snoc o.events e c f.in_time);
  valid = w;
}
after-Extends o e (err x) v c f w = record {
  grows = omega arith;
  request_kept = refl;
  id_kept = λ t h. h;
  chronological = c;
  valid = v;
}

Extends-trans : (o p q : OrderLifecycle) → Extends o p → Extends p q → Extends o q
Extends-trans o p q h k = record {
  grows = omega (arith, h.grows, k.grows);
  request_kept = k.request_kept ∙ h.request_kept;
  id_kept = λ t e. k.id_kept t (h.id_kept t e);
  chronological = k.chronological;
  valid = k.valid;
}

-- Over any history of events, accepted or refused, the filled quantity never goes down and never
-- passes the request, the request stays, a known broker id stays, and the log is in order of time.
pub run-Extends :
    (o : OrderLifecycle) (es : List OrderLifecycleEvent)
    → IsValid o
    → IsChronological o.events
    → Extends o (run o es)
unfolding run
run-Extends o [] v c = record {
  grows = omega arith;
  request_kept = refl;
  id_kept = λ t h. h;
  chronological = c;
  valid = v;
}
run-Extends o (e ∷ es) v c =
    let r = apply o e in
    let h = after-Extends o e r v c (apply-Follows o e) (apply-IsValid o e v) in
    Extends-trans o (after o r) (run (after o r) es) h
      (run-Extends (after o r) es h.valid h.chronological)

-- After a terminal state nothing of the lifecycle changes, the log included.
pub run_of_terminal_lifecycle :
    (o : OrderLifecycle) (es : List OrderLifecycleEvent) → terminal o ≡ true → run o es ≡ o
unfolding run
run_of_terminal_lifecycle o [] h = refl
run_of_terminal_lifecycle o (e ∷ es) h =
    rw (apply_of_terminal o e h, after) (run_of_terminal_lifecycle o es h)
