-- ===== src/Manifest/Templates.antt =====
-- `templateUsesBareWorkspace` of internal/manifest/validate.go, over the nodes of text/template/parse.
-- `nil_list` is a *ListNode that is nil, which an if, range or with has in place of a missing else: as a
-- parse.Node it is not nil, so the code looks for its children. `none` is a panic. The other nodes that
-- have parts, {{template}} and a chain of fields, are not looked into.
use virtle.Prelude.{
  arith, String, Bool, true, false, ◌&&◌, ◌||◌, ◌≡◌, refl, List, [], ◌∷◌, Option, none, some,
  str_eq, if◌then◌else◌, ◌∙◌,
}

mutual
  pub data Node : Type 0 where
    nil_node nil_list other_node : Node
    list_node pipe_node command_node : Nodes → Node
    action_node template_node chain_node : Node → Node
    if_node range_node with_node : Node → Node → Node → Node
    field_node variable_node : List String → Node

  pub data Nodes : Type 0 where
    nil : Nodes
    cons : Node → Nodes → Nodes

abbrev is_workspace : List String → Bool
is_workspace [] = false
is_workspace (ident ∷ []) = str_eq ident "Workspace"
is_workspace (ident ∷ _ ∷ _) = false

-- Go's `||` on answers.
abbrev or_else : Option Bool → Option Bool → Option Bool
or_else none next = none
or_else (some true) next = some true
or_else (some false) next = next

unfoldable mutual
  pub template_uses_bare_workspace : Node → Option Bool
  template_uses_bare_workspace nil_node = some false
  template_uses_bare_workspace nil_list = none
  template_uses_bare_workspace other_node = some false
  template_uses_bare_workspace (list_node nodes) = any_uses nodes
  template_uses_bare_workspace (pipe_node cmds) = any_uses cmds
  template_uses_bare_workspace (command_node args) = any_uses args
  template_uses_bare_workspace (action_node pipe) = template_uses_bare_workspace pipe
  template_uses_bare_workspace (template_node pipe) = some false
  template_uses_bare_workspace (chain_node inner) = some false
  template_uses_bare_workspace (if_node pipe list else_list) =
      or_else (template_uses_bare_workspace pipe)
        (or_else (template_uses_bare_workspace list) (template_uses_bare_workspace else_list))
  template_uses_bare_workspace (range_node pipe list else_list) =
      or_else (template_uses_bare_workspace pipe)
        (or_else (template_uses_bare_workspace list) (template_uses_bare_workspace else_list))
  template_uses_bare_workspace (with_node pipe list else_list) =
      or_else (template_uses_bare_workspace pipe)
        (or_else (template_uses_bare_workspace list) (template_uses_bare_workspace else_list))
  template_uses_bare_workspace (field_node ident) = some (is_workspace ident)
  template_uses_bare_workspace (variable_node ident) = some (is_workspace ident)

  pub any_uses : Nodes → Option Bool
  any_uses nil = some false
  any_uses (cons node nodes) = or_else (template_uses_bare_workspace node) (any_uses nodes)

-- Whether a bare {{.Workspace}} stands in a template, in whatever place.
unfoldable mutual
  pub mentions : Node → Bool
  mentions nil_node = false
  mentions nil_list = false
  mentions other_node = false
  mentions (list_node nodes) = any_mentions nodes
  mentions (pipe_node cmds) = any_mentions cmds
  mentions (command_node args) = any_mentions args
  mentions (action_node pipe) = mentions pipe
  mentions (template_node pipe) = mentions pipe
  mentions (chain_node inner) = mentions inner
  mentions (if_node pipe list else_list) = mentions pipe || (mentions list || mentions else_list)
  mentions (range_node pipe list else_list) = mentions pipe || (mentions list || mentions else_list)
  mentions (with_node pipe list else_list) = mentions pipe || (mentions list || mentions else_list)
  mentions (field_node ident) = is_workspace ident
  mentions (variable_node ident) = is_workspace ident

  pub any_mentions : Nodes → Bool
  any_mentions nil = false
  any_mentions (cons node nodes) = mentions node || any_mentions nodes

-- Whether a template has neither a {{template}} nor a chain, into which the code does not look.
unfoldable mutual
  pub is_plain : Node → Bool
  is_plain nil_node = true
  is_plain nil_list = true
  is_plain other_node = true
  is_plain (list_node nodes) = all_plain nodes
  is_plain (pipe_node cmds) = all_plain cmds
  is_plain (command_node args) = all_plain args
  is_plain (action_node pipe) = is_plain pipe
  is_plain (template_node pipe) = false
  is_plain (chain_node inner) = false
  is_plain (if_node pipe list else_list) = is_plain pipe && (is_plain list && is_plain else_list)
  is_plain (range_node pipe list else_list) = is_plain pipe && (is_plain list && is_plain else_list)
  is_plain (with_node pipe list else_list) = is_plain pipe && (is_plain list && is_plain else_list)
  is_plain (field_node ident) = true
  is_plain (variable_node ident) = true

  pub all_plain : Nodes → Bool
  all_plain nil = true
  all_plain (cons node nodes) = is_plain node && all_plain nodes

-- Whether every if, range and with of a template that the code comes to has an else.
unfoldable mutual
  pub is_complete : Node → Bool
  is_complete nil_node = true
  is_complete nil_list = false
  is_complete other_node = true
  is_complete (list_node nodes) = all_complete nodes
  is_complete (pipe_node cmds) = all_complete cmds
  is_complete (command_node args) = all_complete args
  is_complete (action_node pipe) = is_complete pipe
  is_complete (template_node pipe) = true
  is_complete (chain_node inner) = true
  is_complete (if_node pipe list else_list) =
      is_complete pipe && (is_complete list && is_complete else_list)
  is_complete (range_node pipe list else_list) =
      is_complete pipe && (is_complete list && is_complete else_list)
  is_complete (with_node pipe list else_list) =
      is_complete pipe && (is_complete list && is_complete else_list)
  is_complete (field_node ident) = true
  is_complete (variable_node ident) = true

  pub all_complete : Nodes → Bool
  all_complete nil = true
  all_complete (cons node nodes) = is_complete node && all_complete nodes

-- What the code answers, by whether a bare {{.Workspace}} is there, an else is nowhere missing, and nothing
-- is there that the code does not look into.
Answers : Option Bool → Bool → Bool → Bool → Type 0
Answers answer m c k =
    (c ≡ true → k ≡ true → answer ≡ some m)
    × (m ≡ false → answer ≡ (if c then some false else none))

or_some : (m n : Bool) → or_else (some m) (some n) ≡ some (m || n)
or_some true n = refl
or_some false true = refl
or_some false false = refl

or_missing :
    (c d : Bool)
    → or_else (if c then some false else none) (if d then some false else none)
      ≡ (if c && d then some false else none)
or_missing true true = refl
or_missing true false = refl
or_missing false d = refl

or_lem :
    (a b : Option Bool) (m n c d k l : Bool)
    → Answers a m c k
    → Answers b n d l
    → Answers (or_else a b) (m || n) (c && d) (k && l)
unfolding Answers
or_lem a b m n c d k l p q = (
  λ e f.
      let a_some : a ≡ some m = p.0 (ground arith) (ground arith) in
      let b_some : b ≡ some n = q.0 (ground arith) (ground arith) in
      rw (a_some, b_some) (or_some m n),
  λ e.
      let a_is : a ≡ (if c then some false else none) = p.1 (ground arith) in
      let b_is : b ≡ (if d then some false else none) = q.1 (ground arith) in
      rw (a_is, b_is) (or_missing c d),
)

leaf : (b : Bool) → Answers (some b) b true true
unfolding Answers
leaf b = (λ e f. refl, λ e. rw e refl)

-- A part that is not looked into.
unseen : (m : Bool) → Answers (some false) m true false
unfolding Answers
unseen m = (λ e f. absurd (ground arith), λ e. refl)

abbrev HasAnswer : Node → Type 0
HasAnswer n = Answers (template_uses_bare_workspace n) (mentions n) (is_complete n) (is_plain n)

control_lem :
    (p l e : Node)
    → HasAnswer p
    → HasAnswer l
    → HasAnswer e
    → Answers
        (or_else
          (template_uses_bare_workspace p)
          (or_else (template_uses_bare_workspace l) (template_uses_bare_workspace e)))
        (mentions p || (mentions l || mentions e))
        (is_complete p && (is_complete l && is_complete e))
        (is_plain p && (is_plain l && is_plain e))
control_lem p l e a b c =
    or_lem (template_uses_bare_workspace p)
      (or_else (template_uses_bare_workspace l) (template_uses_bare_workspace e)) (mentions p)
      (mentions l || mentions e) (is_complete p) (is_complete l && is_complete e) (is_plain p)
      (is_plain l && is_plain e) a
      (or_lem (template_uses_bare_workspace l) (template_uses_bare_workspace e) (mentions l)
        (mentions e) (is_complete l) (is_complete e) (is_plain l) (is_plain e) b c)

mutual
  unfolding template_uses_bare_workspace any_uses mentions any_mentions is_complete all_complete
      is_plain all_plain Answers

  node_lem :
      (n : Node)
      → Answers (template_uses_bare_workspace n) (mentions n) (is_complete n) (is_plain n)
  node_lem nil_node = leaf false
  node_lem nil_list = (λ e f. absurd (ground arith), λ e. refl)
  node_lem other_node = leaf false
  node_lem (list_node nodes) = nodes_lem nodes
  node_lem (pipe_node cmds) = nodes_lem cmds
  node_lem (command_node args) = nodes_lem args
  node_lem (action_node pipe) = node_lem pipe
  node_lem (template_node pipe) = unseen (mentions pipe)
  node_lem (chain_node inner) = unseen (mentions inner)
  node_lem (if_node pipe list else_list) =
      control_lem pipe list else_list (node_lem pipe) (node_lem list) (node_lem else_list)
  node_lem (range_node pipe list else_list) =
      control_lem pipe list else_list (node_lem pipe) (node_lem list) (node_lem else_list)
  node_lem (with_node pipe list else_list) =
      control_lem pipe list else_list (node_lem pipe) (node_lem list) (node_lem else_list)
  node_lem (field_node ident) = leaf (is_workspace ident)
  node_lem (variable_node ident) = leaf (is_workspace ident)

  nodes_lem :
      (ns : Nodes) → Answers (any_uses ns) (any_mentions ns) (all_complete ns) (all_plain ns)
  nodes_lem nil = leaf false
  nodes_lem (cons node nodes) =
      or_lem (template_uses_bare_workspace node) (any_uses nodes) (mentions node)
        (any_mentions nodes) (is_complete node) (all_complete nodes) (is_plain node)
        (all_plain nodes) (node_lem node) (nodes_lem nodes)

-- On a template whose every if, range and with has an else and which has neither a {{template}} nor a chain,
-- the code answers whether a bare {{.Workspace}} stands anywhere in it, at whatever depth.
pub template_answers :
    (n : Node)
    → is_complete n ≡ true
    → is_plain n ≡ true
    → template_uses_bare_workspace n ≡ some (mentions n)
unfolding Answers
template_answers n = (node_lem n).0

-- On a template that lacks the else of an if, range or with, and has no bare {{.Workspace}}, the code
-- panics.
pub template_panics :
    (n : Node) → mentions n ≡ false → is_complete n ≡ false → template_uses_bare_workspace n ≡ none
unfolding Answers
template_panics n m c = (node_lem n).1 m ∙ rw c refl
