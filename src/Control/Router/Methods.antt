-- ===== src/Control/Router/Methods.antt =====
-- Which requests are dispatched, and what is answered (`handle`, `methodsResponse`).
use virtle.Prelude.{
  All, ◌↔◌, ◌&&◌, not, sym, subst, String, Bool, true, false, ◌≡◌, ◌≢◌, refl, ◌⊎◌, inl, inr, List,
  [], ◌∷◌, Option, none, some, str_eq, eq_iff, In, if◌then◌else◌, arith, Bool-cases, is_some,
}
use virtle.Prelude.Errors.{Error, Result, ok, err}
use Prim.Native.String.{◌++◌ as str_append}
use virtle.Control.Router.{
  HandlerCall, status, methods_list, wait, kill, shutdown_rpc, guest_ps, guest_exec, guest_read,
  guest_write, guest_shutdown, suspend, hotplug, balloon, failure, ℤ, Handlers, Request, Response,
  lookup, bound, default_methods, methods_response, handle, dispatch, answered, marshalled,
}

abbrev Table : Type 0
Table = List (String × (Handlers → Option HandlerCall))

names : Table → List String
names [] = []
names ((name, bind) ∷ methods) = name ∷ names methods

-- No name stands twice in a table.
IsTable : Table → Type 0
unfolding names
IsTable [] = Unit
IsTable ((name, bind) ∷ methods) = (In name (names methods) → ⊥) × IsTable methods

In-if :
    (b : Bool) (name n : String) (later : List String)
    → In name (if b then n ∷ later else later)
    → ((b ≡ true) × (n ≡ name)) ⊎ In name later
In-if true name n later (inl e) = inl (refl, e)
In-if true name n later (inr p) = inr p
In-if false name n later p = inr p

bound_lem :
    (h : Handlers) (name : String) (methods : Table)
    → In name (bound h methods)
    → In name (names methods)
unfolding bound names
bound_lem h name [] p = p
bound_lem h name ((n, bind) ∷ methods) p =
    elim (In-if (is_some (bind h)) name n (bound h methods) p) [
      | inl (b, e) ↦ inl e
      | inr q ↦ inr (bound_lem h name methods q)
    ]

-- Whether a name is bound.
has : Option (Option HandlerCall) → Bool
has none = false
has (some o) = is_some o

-- A name that is listed is bound.
listed_lem :
    (h : Handlers) (name : String) (methods : Table)
    → IsTable methods
    → In name (bound h methods)
    → has (lookup h methods name) ≡ true
unfolding bound lookup IsTable has
listed_lem h name [] t p = absurd p
listed_lem h name ((n, bind) ∷ methods) t p =
    elim (In-if (is_some (bind h)) name n (bound h methods) p) [
      | inl (b, e) ↦ ground (arith, eq_iff n name)
      | inr q ↦
          let other : n ≢ name =
            λ e. t.0 (bound_lem h n methods (subst (λ x. In x (bound h methods)) (sym e) q)) in
          ground (arith, eq_iff n name, listed_lem h name methods t.1 q)
    ]

In-then :
    (b : Bool) (name n : String) (later : List String)
    → In name later
    → In name (if b then n ∷ later else later)
In-then true name n later p = inr p
In-then false name n later p = p

-- A name that is bound is listed.
lookup_lem :
    (h : Handlers) (name : String) (methods : Table)
    → has (lookup h methods name) ≡ true
    → In name (bound h methods)
unfolding bound lookup has
lookup_lem h name [] e = absurd (ground arith)
lookup_lem h name ((n, bind) ∷ methods) e = elim (Bool-cases (str_eq n name)) [
  | inl s ↦
      let b : is_some (bind h) ≡ true = ground arith in rw b (inl (ground (arith, eq_iff n name)))
  | inr s ↦
      In-then (is_some (bind h)) name n (bound h methods) (lookup_lem h name methods (ground arith))
]

known : List String → String → Bool
known [] name = false
known (n ∷ names) name = if str_eq n name then true else known names name

known_lem : (names : List String) (name : String) → In name names → known names name ≡ true
unfolding known
known_lem [] name p = absurd p
known_lem (n ∷ names) name (inl e) = ground (arith, eq_iff n name)
known_lem (n ∷ names) name (inr p) = ground (arith, known_lem names name p)

not_known : (names : List String) (name : String) → known names name ≡ false → In name names → ⊥
not_known names name e p = absurd (ground (arith, known_lem names name p))

distinct : Table → Bool
unfolding names known
distinct [] = true
distinct ((name, bind) ∷ methods) = not (known (names methods) name) && distinct methods

distinct_lem : (methods : Table) → distinct methods ≡ true → IsTable methods
unfolding distinct IsTable
distinct_lem [] e = tt
distinct_lem ((name, bind) ∷ methods) e =
    (not_known (names methods) name (ground arith), distinct_lem methods (ground arith))

default_methods-IsTable : IsTable default_methods
unfolding distinct default_methods
default_methods-IsTable = distinct_lem default_methods refl

-- The method that a function serves, and whether the handler that has the function is there.
unfoldable pub serves : HandlerCall → String
serves status = "status"
serves methods_list = "methods"
serves wait = "wait"
serves kill = "kill"
serves shutdown_rpc = "shutdown"
serves guest_ps = "guest-ps"
serves guest_exec = "guest-exec"
serves guest_read = "guest-read"
serves guest_write = "guest-write"
serves guest_shutdown = "guest-shutdown"
serves suspend = "suspend"
serves hotplug = "hotplug"
serves balloon = "balloon"

unfoldable pub given : Handlers → HandlerCall → Bool
given h status = h.core
given h methods_list = true
given h wait = h.core
given h kill = h.kill
given h shutdown_rpc = h.shutdown
given h guest_ps = h.guest
given h guest_exec = h.guest
given h guest_read = h.guest
given h guest_write = h.guest
given h guest_shutdown = h.guest
given h suspend = h.suspend
given h hotplug = h.hotplug
given h balloon = h.balloon

abbrev calls : List HandlerCall
calls =
    status ∷ methods_list ∷ wait ∷ kill ∷ shutdown_rpc ∷ guest_ps ∷ guest_exec ∷ guest_read
    ∷ guest_write ∷ guest_shutdown ∷ suspend ∷ hotplug ∷ balloon ∷ []

every : (P : HandlerCall → Type 0) → All P calls → (c : HandlerCall) → P c
every P h status = h.0
every P h methods_list = h.1.0
every P h wait = h.1.1.0
every P h kill = h.1.1.1.0
every P h shutdown_rpc = h.1.1.1.1.0
every P h guest_ps = h.1.1.1.1.1.0
every P h guest_exec = h.1.1.1.1.1.1.0
every P h guest_read = h.1.1.1.1.1.1.1.0
every P h guest_write = h.1.1.1.1.1.1.1.1.0
every P h guest_shutdown = h.1.1.1.1.1.1.1.1.1.0
every P h suspend = h.1.1.1.1.1.1.1.1.1.1.0
every P h hotplug = h.1.1.1.1.1.1.1.1.1.1.1.0
every P h balloon = h.1.1.1.1.1.1.1.1.1.1.1.1.0

-- What a function is bound to.
binding : Handlers → HandlerCall → Option HandlerCall
binding h c = if given h c then some c else none

table : List HandlerCall → Table
unfolding binding
table [] = []
table (c ∷ cs) = (serves c, λ h. binding h c) ∷ table cs

default_methods-table : default_methods ≡ table calls
unfolding default_methods table binding given serves
default_methods-table = refl

found_lem :
    (h : Handlers) (name : String) (cs : List HandlerCall)
    → ((c : HandlerCall) × (name ≡ serves c) × (lookup h (table cs) name ≡ some (binding h c)))
      ⊎ (All (λ c. name ≢ serves c) cs × (lookup h (table cs) name ≡ none))
unfolding lookup table
found_lem h name [] = inr (tt, refl)
found_lem h name (c ∷ cs) = elim (Bool-cases (str_eq (serves c) name)) [
  | inl s ↦ inl (c, sym ((eq_iff (serves c) name).0 s), rw s refl)
  | inr s ↦ elim (found_lem h name cs) [
    | inl (d, e, l) ↦ inl (d, e, rw s l)
    | inr (a, l) ↦ inr ((λ e. absurd (ground (arith, eq_iff (serves c) name)), a), rw s l)
  ]
]

has_lem :
    (h : Handlers) (c : HandlerCall) (o : Option (Option HandlerCall))
    → o ≡ some (binding h c)
    → (given h c ≡ true) ↔ (has o ≡ true)
unfolding has binding
has_lem h c o e = ground arith

-- A response under an id, with a result or an error.
abbrev pub HasReply : ℤ → Response → Type 0
HasReply id response = (response.id ≡ id) × (is_some response.result ≡ not (is_some response.error))

module _ (error_text : Error → String) (quoted : String → String) where
  given_lem :
      (h : Handlers) (call : HandlerCall → String → Result (Result String)) (r : Request)
      (c : HandlerCall) (b : Bool)
      → dispatch error_text quoted r call (some (if b then some c else none)) ≡ (
          if b
          then answered error_text quoted r.id (call c r.params)
          else failure r.id "unsupported"
              (str_append r.method " is not supported by this control socket"))
  unfolding dispatch
  given_lem h call r c true = refl
  given_lem h call r c false = refl

  -- A request of a method that a function serves is answered by that function, for the parameters of the
  -- request, if its handler is given, and else as unsupported; a request of another method is answered
  -- as unknown. The methods that `methods` lists are those whose handler is given.
  pub handle_dispatches :
      (h : Handlers) (call : HandlerCall → String → Result (Result String)) (r : Request)
      → ((c : HandlerCall) × (r.method ≡ serves c)
          × (handle error_text quoted h call r ≡ (
              if given h c
              then answered error_text quoted r.id (call c r.params)
              else failure r.id "unsupported"
                  (str_append r.method " is not supported by this control socket")))
          × ((given h c ≡ true) ↔ In r.method (methods_response h)))
        ⊎ (((c : HandlerCall) → r.method ≢ serves c)
            × (handle error_text quoted h call r
                ≡ failure r.id "unknown_method" (str_append "unknown method " (quoted r.method))))
  unfolding handle dispatch methods_response binding
  handle_dispatches h call r = elim (found_lem h r.method calls) [
    | inl (c, e, l) ↦
        let f =
          subst (λ t. lookup h t r.method ≡ some (binding h c)) (sym default_methods-table) l in
        let g = has_lem h c (lookup h default_methods r.method) f in
        inl (
          c,
          e,
          rw f (given_lem h call r c (given h c)),
          (
            λ x. lookup_lem h r.method default_methods (g.0 x),
            λ x. g.1 (listed_lem h r.method default_methods default_methods-IsTable x),
          ),
        )
    | inr (a, l) ↦
        let f = subst (λ t. lookup h t r.method ≡ none) (sym default_methods-table) l in
        inr (every (λ c. r.method ≢ serves c) a, rw f refl)
  ]

  marshalled_lem : (id : ℤ) (r : Result String) → HasReply id (marshalled error_text quoted id r)
  unfolding marshalled
  marshalled_lem id (err e) = (refl, refl)
  marshalled_lem id (ok payload) = (refl, refl)

  answered_lem :
      (id : ℤ) (r : Result (Result String)) → HasReply id (answered error_text quoted id r)
  unfolding answered
  answered_lem id (err e) = (refl, refl)
  answered_lem id (ok payload) = marshalled_lem id payload

  dispatch_lem :
      (r : Request) (call : HandlerCall → String → Result (Result String))
      (o : Option (Option HandlerCall))
      → HasReply r.id (dispatch error_text quoted r call o)
  unfolding dispatch
  dispatch_lem r call (some (some c)) = answered_lem r.id (call c r.params)
  dispatch_lem r call (some none) = (refl, refl)
  dispatch_lem r call none = (refl, refl)

  -- Every request is answered under its own id, with a result or an error and never with both.
  handle_replies :
      (h : Handlers) (call : HandlerCall → String → Result (Result String)) (r : Request)
      → HasReply r.id (handle error_text quoted h call r)
  unfolding handle
  handle_replies h call r = dispatch_lem r call (lookup h default_methods r.method)
