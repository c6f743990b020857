-- ===== src/Launch/Suspend/Drain.antt =====
-- How the launch empties the queue of backend/qemu/internal/launch/suspend.go.
use virtle.Prelude.{
  ℕ, true, false, ◌≡◌, refl, sym, ◌∙◌, ◌⊎◌, inl, inr, All, List, [], ◌∷◌, Option, arith,
}
use virtle.Prelude.Errors.{Error}
use virtle.Launch.Suspend.{
  Delivery, System, new_system, idle, received, serving, receive, begin, complete, take_token,
  start_save, end_save, taking, starting, ending, Steps,
}
use virtle.Launch.Suspend.Waiters.{
  count, heard, Told, Phase, quiet, queued, noticed, saving, over, Inv, Step-Inv, Steps-Inv,
  saved-none, Told-none,
}

-- What the launch does by itself, where its save comes to `e`: no other request repairs anything.
pub data OwnSteps (e : Option Error) : System → System → Type 0 where
  done : {s : System} → OwnSteps e s s
  take :
      {s t : System}
      → s.coordinator.token ≡ true
      → s.handler ≡ idle
      → OwnSteps e (take_token s) t
      → OwnSteps e s t
  start : {s t : System} → s.handler ≡ received → OwnSteps e (start_save s) t → OwnSteps e s t
  finish : {s t : System} → s.handler ≡ serving → OwnSteps e (end_save s e) t → OwnSteps e s t

own-Inv : {e : Option Error} {s t : System} → OwnSteps e s t → Inv s → Inv t
own-Inv done v = v
own-Inv (take k h steps) v = own-Inv steps (Step-Inv (taking k h) v)
own-Inv (start h steps) v = own-Inv steps (Step-Inv (starting h) v)
own-Inv {e} (finish h steps) v = own-Inv steps (Step-Inv (ending e h) v)

-- A state in which the queue is empty, and the coordinator has the result of the save unless nothing was
-- asked or it had one before.
IsDrained : Option Error → System → System → Type 0
IsDrained e s t =
    (t.coordinator.waiters ≡ [])
    × ((s.coordinator.completed ≡ true)
        ⊎ ((t.coordinator.completed ≡ false) ⊎ (t.coordinator.result ≡ e)))

drained :
    (s : System) (e : Option Error) → Phase s → (t : System) × (OwnSteps e s t × IsDrained e s t)
unfolding take_token start_save end_save receive begin complete IsDrained
drained s e (quiet a k b) = (s, (done, (b, inr (inl (ground arith)))))
drained s e (queued a k) = (
  end_save (start_save (take_token s)) e,
  (
    take k (ground arith) (start refl (finish refl done)),
    (refl, inr (inr (saved-none s.once e (ground arith)))),
  ),
)
drained s e (noticed a) = (
  end_save (start_save s) e,
  (start (ground arith) (finish refl done), (refl, inr (inr (saved-none s.once e (ground arith))))),
)
drained s e (saving a) = (
  end_save s e,
  (finish (ground arith) done, (refl, inr (inr (saved-none s.once e (ground arith))))),
)
drained s e (over a b) = (s, (done, (b, inl (ground arith))))

-- Every result that was sent is `e`.
AllAre : Option Error → List Delivery → Type 0
AllAre e ds = All (λ d. d.result ≡ e) ds

Told-all :
    (e : Option Error) (t : System) (ds : List Delivery)
    → t.coordinator.result ≡ e
    → Told t.coordinator ds
    → AllAre e ds
unfolding AllAre
Told-all e t [] r h = tt
Told-all e t (d ∷ ds) r h = (h.0.1 ∙ r, Told-all e t ds r h.1)

results :
    (e : Option Error) (s t : System)
    → IsDrained e s t
    → Inv t
    → (s.coordinator.completed ≡ true) ⊎ AllAre e t.delivered
unfolding IsDrained AllAre
results e s t (w, inl c) v = inl c
results e s t (w, inr (inl c)) v = inr (rw (Told-none t.coordinator t.delivered c v.told) tt)
results e s t (w, inr (inr r)) v = inr (Told-all e t t.delivered r v.told)

-- From every state that can come about, the launch's own steps, those of taking a request from the
-- channel, beginning it and completing it with a given outcome, lead without another request to a state in
-- which nobody waits and every waiter has been sent a result for each time that it asked; the results
-- are all that outcome, unless there was one before.
pub Steps-drain :
    {s : System} (e : Option Error)
    → Steps new_system s
    → (t : System) × OwnSteps e s t
      × (t.coordinator.waiters ≡ [])
      × ((w : ℕ) → heard w t.delivered ≡ count w t.asked)
      × ((s.coordinator.completed ≡ true) ⊎ All (λ d. d.result ≡ e) t.delivered)
unfolding IsDrained AllAre
Steps-drain {s} e steps =
    let v = Steps-Inv steps in
    let (t, (own, d)) = drained s e v.phase in
    let u = own-Inv own v in
    (t, own, d.0, (λ w. sym (u.accounted w ∙ rw d.0 (omega arith))), results e s t d u)
