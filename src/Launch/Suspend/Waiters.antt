-- ===== src/Launch/Suspend/Waiters.antt =====
-- No suspend request is lost, and every waiter of backend/qemu/internal/launch/suspend.go hears once.
use virtle.Prelude.{
  ◌⊎◌, some, none, Bool-cases, ◌∙◌, sym, ℕ, suc, ◌+◌, ◌≡◌, refl, inl, inr, Bool, true, false, List,
  [], ◌∷◌, ◌++◌, Option, arith, ◌==◌, if◌then◌else◌, All,
}
use virtle.Prelude.Errors.{Error}
use virtle.Launch.Suspend.{
  SuspendCoordinator, Delivery, deliver, waiter_list, request, notifies, receive, begin, complete,
  Handler, idle, received, serving, System, new_system, ask, take_token, ask_self, start_save,
  end_save, saved, Step, asking, taking, suspending, starting, ending, Steps, here, more,
}

-- How often a waiter stands in a list, and how often it was sent a result.
abbrev pub count : ℕ → List ℕ → ℕ
count w [] = 0
count w (x ∷ xs) = let n = count w xs in if x == w then suc n else n

abbrev pub heard : ℕ → List Delivery → ℕ
heard w [] = 0
heard w (d ∷ ds) = let n = heard w ds in if d.waiter == w then suc n else n

count-append : (w : ℕ) (xs ys : List ℕ) → count w (xs ++ ys) ≡ count w xs + count w ys
count-append w [] ys = omega arith
count-append w (x ∷ xs) ys = ground (arith, count-append w xs ys)

heard-append : (w : ℕ) (xs ys : List Delivery) → heard w (xs ++ ys) ≡ heard w xs + heard w ys
heard-append w [] ys = omega arith
heard-append w (x ∷ xs) ys = ground (arith, heard-append w xs ys)

heard-deliver : (w : ℕ) (e : Option Error) (xs : List ℕ) → heard w (deliver e xs) ≡ count w xs
unfolding deliver
heard-deliver w e [] = refl
heard-deliver w e (x ∷ xs) = ground (arith, heard-deliver w e xs)

-- The notifications so far, where the launch stands, whether a save was made, and the coordinator's
-- flags but for the token.
abbrev At : System → ℕ → Handler → Option (Option Error) → Bool → Bool → Bool → Type 0
At s n h once requested in_flight completed =
    (s.signals ≡ n)
    × (s.handler ≡ h)
    × (s.once ≡ once)
    × (s.coordinator.requested ≡ requested)
    × (s.coordinator.in_flight ≡ in_flight)
    × (s.coordinator.completed ≡ completed)

-- The phases of a coordinator. A suspend of the launch's own leaves its token in the channel, so that the
-- launch may begin and complete again when all is over: it reports what its one save returned.
pub data Phase (s : System) : Type 0 where
  quiet :
      At s 0 idle none false false false
      → s.coordinator.token ≡ false
      → s.coordinator.waiters ≡ []
      → Phase s
  queued : At s 1 idle none true false false → s.coordinator.token ≡ true → Phase s
  noticed : At s 1 received none true false false → Phase s
  saving : At s 1 serving none false true false → Phase s
  over :
      (s.signals ≡ 1)
        × (s.once ≡ some s.coordinator.result)
        × (s.coordinator.requested ≡ false)
        × (s.coordinator.completed ≡ true)
      → s.coordinator.waiters ≡ []
      → Phase s

ask-Phase : (s : System) (w : Option ℕ) → Phase s → Phase (ask s w)
unfolding ask request notifies
ask-Phase s w (quiet a t b) = queued (ground arith) (ground arith)
ask-Phase s w (queued a t) = queued (ground arith) (ground arith)
ask-Phase s w (noticed a) = noticed (ground arith)
ask-Phase s w (saving a) = saving (ground arith)
ask-Phase s w (over a b) = over (ground arith) (ground arith)

ask_self-Phase : (s : System) → s.handler ≡ idle → Phase s → Phase (ask_self s)
unfolding ask_self ask request notifies
ask_self-Phase s h (quiet a t b) = noticed (ground arith)
ask_self-Phase s h (queued a t) = noticed (ground arith)
ask_self-Phase s h (noticed a) = absurd (ground arith)
ask_self-Phase s h (saving a) = absurd (ground arith)
ask_self-Phase s h (over a b) = over (ground arith) (ground arith)

take-Phase :
    (s : System) → s.coordinator.token ≡ true → s.handler ≡ idle → Phase s → Phase (take_token s)
unfolding take_token receive
take-Phase s k h (quiet a t b) = absurd (ground arith)
take-Phase s k h (queued a t) = noticed (ground arith)
take-Phase s k h (noticed a) = absurd (ground arith)
take-Phase s k h (saving a) = absurd (ground arith)
take-Phase s k h (over a b) = over (ground arith) (ground arith)

start-Phase : (s : System) → s.handler ≡ received → Phase s → Phase (start_save s)
unfolding start_save begin
start-Phase s h (quiet a t b) = absurd (ground arith)
start-Phase s h (queued a t) = absurd (ground arith)
start-Phase s h (noticed a) = saving (ground arith)
start-Phase s h (saving a) = absurd (ground arith)
start-Phase s h (over a b) = over (ground arith) (ground arith)

pub saved-none : (o : Option (Option Error)) (e : Option Error) → o ≡ none → saved o e ≡ e
saved-none none e h = refl
saved-none (some r) e h = absurd (ground arith)

saved-some : (o : Option (Option Error)) (e r : Option Error) → o ≡ some r → saved o e ≡ r
saved-some none e r h = absurd (ground arith)
saved-some (some x) e r h = ground arith

end-Phase : (s : System) (e : Option Error) → s.handler ≡ serving → Phase s → Phase (end_save s e)
unfolding end_save complete
end-Phase s e h (quiet a t b) = absurd (ground arith)
end-Phase s e h (queued a t) = absurd (ground arith)
end-Phase s e h (noticed a) = absurd (ground arith)
end-Phase s e h (saving a) = over (ground arith) refl
end-Phase s e h (over a b) = over (ground arith) refl

-- Every waiter that asked either waits still or has been sent a result, once for each time.
abbrev pub Accounted : System → Type 0
Accounted s = (w : ℕ) → count w s.asked ≡ count w s.coordinator.waiters + heard w s.delivered

-- A result that was sent is the coordinator's, which it has.
abbrev pub Told : SuspendCoordinator → List Delivery → Type 0
Told c ds = All (λ d. (c.completed ≡ true) × (d.result ≡ c.result)) ds

Told-append :
    (c : SuspendCoordinator) (ds es : List Delivery) → Told c ds → Told c es → Told c (ds ++ es)
Told-append c [] es h k = k
Told-append c (d ∷ ds) es h k = (h.0, Told-append c ds es h.1 k)

Told-same :
    (c c' : SuspendCoordinator) (ds : List Delivery)
    → c'.completed ≡ c.completed
    → c'.result ≡ c.result
    → Told c ds
    → Told c' ds
Told-same c c' [] e f h = tt
Told-same c c' (d ∷ ds) e f h = ((e ∙ h.0.0, h.0.1 ∙ sym f), Told-same c c' ds e f h.1)

pub Told-none :
    (c : SuspendCoordinator) (ds : List Delivery) → c.completed ≡ false → Told c ds → ds ≡ []
Told-none c [] e h = refl
Told-none c (d ∷ ds) e h = absurd (ground arith)

Told-deliver :
    (c : SuspendCoordinator) (ws : List ℕ) → c.completed ≡ true → Told c (deliver c.result ws)
unfolding deliver
Told-deliver c [] e = tt
Told-deliver c (w ∷ ws) e = ((e, refl), Told-deliver c ws e)

request-count :
    (c : SuspendCoordinator) (w : Option ℕ) (x : ℕ)
    → count x (request c w).0.waiters + heard x (request c w).1
      ≡ count x c.waiters + count x (waiter_list w)
unfolding request deliver
request-count c w x =
    ground
      (arith, count-append x c.waiters (waiter_list w), heard-deliver x c.result (waiter_list w))

request_done :
    (c : SuspendCoordinator) (w : Option ℕ)
    → c.completed ≡ true
    → request c w ≡ (c, deliver c.result (waiter_list w))
unfolding request
request_done c w e = ground arith

request_open : (c : SuspendCoordinator) (w : Option ℕ) → c.completed ≡ false → (request c w).1 ≡ []
unfolding request
request_open c w e = ground arith

request-Told : (c : SuspendCoordinator) (w : Option ℕ) → Told (request c w).0 (request c w).1
request-Told c w = elim (Bool-cases c.completed) [
  | inl e ↦ rw (request_done c w e) (Told-deliver c (waiter_list w) e)
  | inr e ↦ rw (request_open c w e) tt
]

request_same :
    (c : SuspendCoordinator) (w : Option ℕ)
    → ((request c w).0.completed ≡ c.completed) × ((request c w).0.result ≡ c.result)
unfolding request
request_same c w = ground arith

pub record Inv (s : System) : Type 0 where
  pub phase : Phase s
  pub accounted : Accounted s
  pub told : Told s.coordinator s.delivered

ask-Accounted : (s : System) (w : Option ℕ) → Accounted s → Accounted (ask s w)
unfolding ask
ask-Accounted s w a x = omega (
  arith,
  a x,
  request-count s.coordinator w x,
  count-append x s.asked (waiter_list w),
  heard-append x s.delivered (request s.coordinator w).1,
)

ask-Told :
    (s : System) (w : Option ℕ)
    → Told s.coordinator s.delivered
    → Told (ask s w).coordinator (ask s w).delivered
unfolding ask
ask-Told s w t =
    let same = request_same s.coordinator w in
    Told-append (request s.coordinator w).0 s.delivered (request s.coordinator w).1
      (Told-same s.coordinator (request s.coordinator w).0 s.delivered same.0 same.1 t)
      (request-Told s.coordinator w)

take-Inv : (s : System) → s.coordinator.token ≡ true → s.handler ≡ idle → Inv s → Inv (take_token s)
unfolding take_token receive
take-Inv s t h v = record {
  phase = take-Phase s t h v.phase;
  accounted = v.accounted;
  told = v.told;
}

ask_self-Inv : (s : System) → s.handler ≡ idle → Inv s → Inv (ask_self s)
unfolding ask_self
ask_self-Inv s h v = record {
  phase = ask_self-Phase s h v.phase;
  accounted = ask-Accounted s none v.accounted;
  told = ask-Told s none v.told;
}

start-Inv : (s : System) → s.handler ≡ received → Inv s → Inv (start_save s)
unfolding start_save begin
start-Inv s r v = record { phase = start-Phase s r v.phase; accounted = v.accounted; told = v.told }

-- At the end of a save nobody was told, or the result is the one that was told before.
told_before :
    (s : System) (e : Option Error)
    → s.handler ≡ serving
    → Inv s
    → (s.delivered ≡ [])
      ⊎ ((s.coordinator.completed ≡ true) × (saved s.once e ≡ s.coordinator.result))
told_before s e h v = by_phase v.phase
  where
    by_phase :
        Phase s
        → (s.delivered ≡ [])
          ⊎ ((s.coordinator.completed ≡ true) × (saved s.once e ≡ s.coordinator.result))
    by_phase (quiet a t b) = absurd (ground arith)
    by_phase (queued a t) = absurd (ground arith)
    by_phase (noticed a) = absurd (ground arith)
    by_phase (saving a) = inl (Told-none s.coordinator s.delivered (ground arith) v.told)
    by_phase (over a b) =
        inr (ground arith, saved-some s.once e s.coordinator.result (ground arith))

end-Told :
    (s : System) (e : Option Error)
    → s.handler ≡ serving
    → Inv s
    → Told (end_save s e).coordinator (end_save s e).delivered
unfolding end_save complete
end-Told s e r v =
    let result : Option Error = saved s.once e in
    let after : SuspendCoordinator = (complete s.coordinator result).0 in
    Told-append after s.delivered (deliver result s.coordinator.waiters)
      (elim (told_before s e r v) [
        | inl n ↦ rw n tt
        | inr (c, same) ↦ Told-same s.coordinator after s.delivered (sym c) same v.told
      ])
      (Told-deliver after s.coordinator.waiters refl)

end-Inv : (s : System) (e : Option Error) → s.handler ≡ serving → Inv s → Inv (end_save s e)
unfolding end_save complete
end-Inv s e r v = record {
  phase = end-Phase s e r v.phase;
  accounted = λ x. omega (
    arith,
    v.accounted x,
    heard-append x s.delivered (deliver (saved s.once e) s.coordinator.waiters),
    heard-deliver x (saved s.once e) s.coordinator.waiters,
  );
  told = end-Told s e r v;
}

pub Step-Inv : {s t : System} → Step s t → Inv s → Inv t
Step-Inv {s} (asking w) v = record {
  phase = ask-Phase s w v.phase;
  accounted = ask-Accounted s w v.accounted;
  told = ask-Told s w v.told;
}
Step-Inv {s} (taking t i) v = take-Inv s t i v
Step-Inv {s} (suspending i) v = ask_self-Inv s i v
Step-Inv {s} (starting r) v = start-Inv s r v
Step-Inv {s} (ending e r) v = end-Inv s e r v

new-Inv : Inv new_system
new-Inv = record { phase = quiet (ground arith) refl refl; accounted = λ w. refl; told = tt }

-- In every order of requests, suspends of the launch's own among them, and of the launch's steps, from a
-- new coordinator: the coordinator and the launch are in one of five phases, with at most one
-- notification sent; each waiter is in the queue or was sent a result, once for each time that it
-- asked; and every result sent is the one that the coordinator keeps.
pub Steps-Inv : {s : System} → Steps new_system s → Inv s
Steps-Inv here = new-Inv
Steps-Inv (more steps step) = Step-Inv step (Steps-Inv steps)
