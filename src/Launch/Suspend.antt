-- ===== src/Launch/Suspend.antt =====
-- backend/qemu/internal/launch/suspend.go: the coordinator of suspend requests, and the launch that
-- services them as `launchSuspendHandler.Handle` of vmm/manager.go does. Each locked section is one
-- step; a waiter's channel is a number, and what is sent on it is recorded.
pub mod Waiters
pub mod Drain
use virtle.Prelude.{
  ℕ, suc, ◌+◌, ◌≡◌, Bool, true, false, not, ◌&&◌, List, [], ◌∷◌, ◌++◌, Option, none, some,
  if◌then◌else◌,
}
use virtle.Prelude.Errors.{Error}

-- `token` says whether the channel `notify`, of capacity one, is full.
pub record SuspendCoordinator : Type 0 where
  pub token : Bool
  pub waiters : List ℕ
  pub requested : Bool
  pub in_flight : Bool
  pub completed : Bool
  pub result : Option Error

abbrev pub new_suspend_coordinator : SuspendCoordinator
new_suspend_coordinator = record {
  token = false;
  waiters = [];
  requested = false;
  in_flight = false;
  completed = false;
  result = none;
}

-- A result that was sent to a waiter.
pub record Delivery : Type 0 where
  pub waiter : ℕ
  pub result : Option Error

deliver : Option Error → List ℕ → List Delivery
deliver e [] = []
deliver e (w ∷ ws) = record { waiter = w; result = e } ∷ deliver e ws

abbrev waiter_list : Option ℕ → List ℕ
waiter_list none = []
waiter_list (some w) = w ∷ []

-- `request`: a waiter is none for `Request`, and a new channel for `RequestAndWait`.
unfoldable pub request : SuspendCoordinator → Option ℕ → SuspendCoordinator × List Delivery
unfolding deliver
request c waiter =
    let waiting = record c { waiters = c.waiters ++ waiter_list waiter } in
    if c.completed
    then (c, deliver c.result (waiter_list waiter))
    else if not c.requested && not c.in_flight
    then (record waiting { requested = true; token = true }, [])
    else (waiting, [])

-- The notification that `request` sends: the send is dropped if the channel is full.
unfoldable pub notifies : SuspendCoordinator → Bool
notifies c = not c.completed && (not c.requested && not c.in_flight) && not c.token

-- `<-coordinator.Notify()`
unfoldable pub receive : SuspendCoordinator → SuspendCoordinator
receive c = record c { token = false }

unfoldable pub begin : SuspendCoordinator → SuspendCoordinator
begin c = record c { requested = false; in_flight = true }

unfoldable pub complete : SuspendCoordinator → Option Error → SuspendCoordinator × List Delivery
unfolding deliver
complete c e = (
  record c { in_flight = false; completed = true; result = e; waiters = [] },
  deliver e c.waiters,
)

-- Where the launch that services requests stands: `received` says that it has a request in hand, from
-- the channel or of its own, and not yet begun.
pub data Handler : Type 0 where
  idle received serving : Handler

-- The coordinator, its launch, the result of `saveAndExit` once it was there, and what happened so far:
-- the waiters that asked, the results that were sent, and the number of notifications.
pub record System : Type 0 where
  pub coordinator : SuspendCoordinator
  pub handler : Handler
  pub once : Option (Option Error)
  pub asked : List ℕ
  pub delivered : List Delivery
  pub signals : ℕ

abbrev pub new_system : System
new_system = record {
  coordinator = new_suspend_coordinator;
  handler = idle;
  once = none;
  asked = [];
  delivered = [];
  signals = 0;
}

unfoldable pub ask : System → Option ℕ → System
ask s waiter = record s {
  coordinator = (request s.coordinator waiter).0;
  asked = s.asked ++ waiter_list waiter;
  delivered = s.delivered ++ (request s.coordinator waiter).1;
  signals = if notifies s.coordinator then suc s.signals else s.signals;
}

unfoldable pub take_token : System → System
take_token s = record s { coordinator = receive s.coordinator; handler = received }

unfoldable pub start_save : System → System
start_save s = record s { coordinator = begin s.coordinator; handler = serving }

-- `SuspendSession` up to its `HandleSuspendRequest`: it asks by itself and receives nothing.
unfoldable pub ask_self : System → System
ask_self s = record (ask s none) { handler = received }

-- What `saveAndExit` returns, the first time and later.
abbrev pub saved : Option (Option Error) → Option Error → Option Error
saved none e = e
saved (some result) e = result

unfoldable pub end_save : System → Option Error → System
end_save s e =
    let result = saved s.once e in
    record s {
      coordinator = (complete s.coordinator result).0;
      handler = idle;
      once = some result;
      delivered = s.delivered ++ (complete s.coordinator result).1;
    }

-- The launch takes a request from the channel or makes one, begins it, and then completes it, one
-- after another; other requests come at any time.
pub data Step (s : System) : System → Type 0 where
  asking : (waiter : Option ℕ) → Step s (ask s waiter)
  taking : s.coordinator.token ≡ true → s.handler ≡ idle → Step s (take_token s)
  suspending : s.handler ≡ idle → Step s (ask_self s)
  starting : s.handler ≡ received → Step s (start_save s)
  ending : (e : Option Error) → s.handler ≡ serving → Step s (end_save s e)

pub data Steps (s : System) : System → Type 0 where
  here : Steps s s
  more : {t u : System} → Steps s t → Step t u → Steps s u
