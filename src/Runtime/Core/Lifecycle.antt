-- ===== src/Runtime/Core/Lifecycle.antt =====
-- What holds of a running machine through every order of its calls.
use virtle.Prelude.{
  ap, append-nil, sym, subst, ◌∙◌, Bool, true, false, ◌≡◌, refl, List, [], ◌∷◌, ◌++◌, Option, none,
  some, arith, All,
}
use virtle.Prelude.Errors.{Error, errors_join}
use virtle.Runtime.State.{State, stopped, set, finish, Wait, finished, ended}
use virtle.Runtime.Closer.{
  Action, Progress, perform, unless, write_back, close_control, close_processes, disconnect_qmp,
  clean_up, fresh, running, over, CloseActions, run,
}
use virtle.Runtime.Core.{
  Caller, shutting, killing, kill_reply, reply, set_action, to_do, take_action, acting, actions,
  mark_saved_suspend, Core, Reply, shutdown_reply, suspend_reply, set_ready, begin_close, end_close,
  close_again, begin_suspend, end_suspend, Step, becoming_ready, marking, closing, closed,
  closing_again, asking, answering, Reach, new, next,
}

-- A reply to a Shutdown carries error `e`, one to a Kill that and its own.
abbrev pub Says : Option Error → Reply → Type 0
Says e (shutdown_reply x) = x ≡ e
Says e (kill_reply own x) = x ≡ errors_join (own ∷ e ∷ [])
Says e (suspend_reply x) = Unit

-- No Shutdown or Kill has been answered yet.
abbrev pub IsSuspendReply : Reply → Type 0
IsSuspendReply (shutdown_reply x) = ⊥
IsSuspendReply (kill_reply own x) = ⊥
IsSuspendReply (suspend_reply x) = Unit

-- Where actions that are left lead, from an error and the actions before.
unfoldable pub carry_out : Progress → List (Action × Option Error) → Progress
carry_out p [] = p
carry_out p ((a, answer) ∷ rest) = carry_out (perform a (some answer) p) rest

-- Before the teardown begins nothing was done; while it runs, what was done and what is left make one
-- run of the actions; until it is over nobody's wait is over and no Shutdown or Kill was answered; after
-- it, what was done is that run, and waits, Shutdowns and Kills get its error.
pub data Inv (r : Core) : Type 0 where
  up :
      r.closer.once ≡ fresh
      → r.state.done ≡ false
      → r.closer.did ≡ []
      → All IsSuspendReply r.replies
      → Inv r
  going :
      (answers : CloseActions)
      → r.closer.once ≡ running
      → r.state.done ≡ false
      → carry_out (r.so_far, r.closer.did) r.left ≡ run answers
      → All IsSuspendReply r.replies
      → Inv r
  down :
      (answers : CloseActions)
      → r.closer.once ≡ over
      → r.state.done ≡ true
      → r.closer.did ≡ (run answers).1
      → r.closer.err ≡ (run answers).0
      → r.state.err ≡ (run answers).0
      → All (Says (run answers).0) r.replies
      → Inv r

carry_set :
    (p : Progress) (a : Action) (o : Option (Option Error)) (l : List (Action × Option Error))
    → carry_out p (set_action a o ++ l) ≡ carry_out (perform a o p) l
unfolding carry_out perform
carry_set p a none l = refl
carry_set p a (some answer) l = refl

carry_last :
    (p : Progress) (a : Action) (o : Option (Option Error))
    → carry_out p (set_action a o) ≡ perform a o p
unfolding carry_out perform
carry_last p a none = refl
carry_last p a (some answer) = refl

-- All actions in their order are one run.
to_do-run : (a : CloseActions) → carry_out (none, []) (to_do a) ≡ run a
unfolding to_do run
to_do-run a =
    let w = perform write_back (unless a.skip_write_back a.write_back) (none, []) in
    let c = perform close_control a.control w in
    let p = perform close_processes a.processes c in
    let q = perform disconnect_qmp a.qmp p in
    let after_qmp = set_action clean_up a.cleanup in
    let after_processes = set_action disconnect_qmp a.qmp ++ after_qmp in
    let after_control = set_action close_processes a.processes ++ after_processes in
    carry_set (none, []) write_back (unless a.skip_write_back a.write_back)
      (set_action close_control a.control ++ after_control)
    ∙ carry_set w close_control a.control after_control
    ∙ carry_set c close_processes a.processes after_processes
    ∙ carry_set p disconnect_qmp a.qmp after_qmp
    ∙ carry_last q clean_up a.cleanup

All-append : (P : Reply → Type 0) (xs ys : List Reply) → All P xs → All P ys → All P (xs ++ ys)
All-append P [] ys h k = k
All-append P (x ∷ xs) ys h k = (h.0, All-append P xs ys h.1 k)

weaken : (e : Option Error) (xs : List Reply) → All IsSuspendReply xs → All (Says e) xs
weaken e [] h = tt
weaken e (suspend_reply x ∷ xs) h = (tt, weaken e xs h.1)
weaken e (shutdown_reply x ∷ xs) h = absurd (h.0)
weaken e (kill_reply own x ∷ xs) h = absurd (h.0)

reply-Says : (c : Caller) (e : Option Error) → Says e (reply c e)
unfolding reply
reply-Says shutting e = refl
reply-Says (killing own) e = refl

-- The replies after a call that adds some.
more :
    (P : Reply → Type 0) (r r' : Core) (add : List Reply)
    → r'.replies ≡ r.replies ++ add
    → All P r.replies
    → All P add
    → All P r'.replies
more P r r' add l h k = subst (All P) (sym l) (All-append P r.replies add h k)

-- Calls that leave the closer and the result alone.
kept :
    (r r' : Core) (add : List Reply)
    → r'.closer ≡ r.closer
    → (r'.so_far ≡ r.so_far) × (r'.left ≡ r.left)
    → r'.state.done ≡ r.state.done
    → r'.state.err ≡ r.state.err
    → r'.replies ≡ r.replies ++ add
    → All IsSuspendReply add
    → Inv r
    → Inv r'
kept r r' add c b d e l a (going x o n m s) =
    going x (ground arith) (d ∙ n) (rw (c, b.0, b.1) m) (more IsSuspendReply r r' add l s a)
kept r r' add c b d e l a (up o n m s) =
    up (ground arith) (d ∙ n) (ground arith) (more IsSuspendReply r r' add l s a)
kept r r' add c b d e l a (down x o n m f g s) =
    down x (ground arith) (d ∙ n) (ground arith) (ground arith) (e ∙ g)
      (more (Says (run x).0) r r' add l s (weaken (run x).0 add a))

finish_first :
    (s : State) (e : Option Error)
    → s.done ≡ false
    → ((finish (set s stopped) e).done ≡ true) × ((finish (set s stopped) e).err ≡ e)
unfolding finish
finish_first s e h = ground arith

closes : (r : Core) → r.closer.once ≡ running → r.left ≡ [] → Inv r → Inv (end_close r)
unfolding end_close carry_out
closes r o l (up o' n m s) = absurd (ground arith)
closes r o l (down x o' n m f g s) = absurd (ground arith)
closes r o l (going x o' n m s) =
    let ran : (r.so_far, r.closer.did) ≡ run x =
      subst (λ y. carry_out (r.so_far, r.closer.did) y ≡ run x) l m in
    let f = finish_first r.state r.so_far n in
    let e : r.so_far ≡ (run x).0 = ap (λ p. p.0) ran in
    down x refl f.0 (ap (λ p. p.1) ran) e (f.1 ∙ e) (
      All-append (Says (run x).0) r.replies (reply r.caller r.so_far ∷ [])
        (weaken (run x).0 r.replies s)
        (subst (λ y. Says y (reply r.caller r.so_far)) e (reply-Says r.caller r.so_far), tt))

acts :
    (r : Core) (a : Action) (answer : Option Error) (rest : List (Action × Option Error))
    → r.closer.once ≡ running
    → r.left ≡ (a, answer) ∷ rest
    → Inv r
    → Inv (take_action r a answer rest)
unfolding take_action carry_out perform
acts r a answer rest o l (up o' n m s) = absurd (ground arith)
acts r a answer rest o l (down x o' n m f g s) = absurd (ground arith)
acts r a answer rest o l (going x o' n m s) =
    going x o n (subst (λ y. carry_out (r.so_far, r.closer.did) y ≡ run x) l m) s

closes_again :
    (r : Core) (caller : Caller) → r.closer.once ≡ over → Inv r → Inv (close_again r caller)
unfolding close_again
closes_again r caller o (up o' n m s) = absurd (ground arith)
closes_again r caller o (going x o' n m s) = absurd (ground arith)
closes_again r caller o (down x o' n m f g s) = down x o n m f g (
    All-append (Says (run x).0) r.replies (reply caller r.closer.err ∷ []) s
      (subst (λ y. Says y (reply caller r.closer.err)) f (reply-Says caller r.closer.err), tt))

begins :
    (r : Core) (caller : Caller) (answers : CloseActions)
    → r.closer.once ≡ fresh
    → Inv r
    → Inv (begin_close r caller answers)
unfolding begin_close
begins r caller answers o (down x o' n m f g s) = absurd (ground arith)
begins r caller answers o (going x o' n m s) = absurd (ground arith)
begins r caller answers o (up o' n m s) =
    going (actions r answers) refl n
      (ap (λ d. carry_out (none, d) (to_do (actions r answers))) m ∙ to_do-run (actions r answers))
      s

append-nil_sym : (xs : List Reply) → xs ≡ xs ++ []
append-nil_sym xs = sym (append-nil xs)

answers_suspend : (r : Core) (e : Option Error) (saved : Bool) → Inv r → Inv (end_suspend r e saved)
unfolding end_suspend
answers_suspend r none saved v =
    kept r (end_suspend r none saved) (suspend_reply none ∷ []) refl (refl, refl) refl refl refl
      (tt, tt) v
answers_suspend r (some e) true v =
    kept r (end_suspend r (some e) true) (suspend_reply none ∷ []) refl (refl, refl) refl refl refl
      (tt, tt) v
answers_suspend r (some e) false v =
    kept r (end_suspend r (some e) false) (suspend_reply (some e) ∷ []) refl (refl, refl) refl refl
      refl (tt, tt) v

Step-Inv : {r r' : Core} → Step r r' → Inv r → Inv r'
unfolding begin_suspend
Step-Inv {r} becoming_ready v =
    kept r (set_ready r) [] refl (refl, refl) refl refl (append-nil_sym r.replies) tt v
Step-Inv {r} marking v =
    kept r (mark_saved_suspend r) [] refl (refl, refl) refl refl (append-nil_sym r.replies) tt v
Step-Inv {r} (closing caller answers o) v = begins r caller answers o v
Step-Inv {r} (acting a answer rest o l) v = acts r a answer rest o l v
Step-Inv {r} (closed o l) v = closes r o l v
Step-Inv {r} (closing_again caller o) v = closes_again r caller o v
Step-Inv {r} asking v =
    kept r (begin_suspend r) [] refl (refl, refl) refl refl (append-nil_sym r.replies) tt v
Step-Inv {r} (answering e saved) v = answers_suspend r e saved v

-- In every order of calls to a new machine, Kill among them, with other calls between the actions of the
-- teardown: before it nothing was done; while it runs, what was done and what is left make one run
-- of the actions; until it is over nobody's wait is over and no Shutdown or Kill was answered; after it,
-- what was done is that run, the wait's result, the closer's error and every answer to a Shutdown are
-- its error, and every answer to a Kill joins it to the Kill's own.
pub Reach-Inv : {r : Core} → Reach r → Inv r
Reach-Inv new = up refl refl refl tt
Reach-Inv (next r step) = Step-Inv step (Reach-Inv r)

agree : (r : Core) → r.state.done ≡ true → Inv r → r.state.err ≡ r.closer.err
agree r d (up o n m s) = absurd (ground arith)
agree r d (going x o n m s) = absurd (ground arith)
agree r d (down x o n m f g s) = g ∙ sym f

-- In every order of calls, a wait whose context does not end returns the closer's error.
pub Wait-result : {r : Core} {x : Option Error} → Reach r → Wait r.state none x → x ≡ r.closer.err
Wait-result {r} reach (finished d) = agree r d (Reach-Inv reach)
Wait-result reach (ended e) = absurd (ground arith)
