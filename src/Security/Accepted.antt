-- ===== src/Security/Accepted.antt =====
-- Which templates the validator accepts.
use apirun.Prelude.{
  ℕ, suc, ◌+◌, ◌-◌, ◌≡◌, ◌≤◌, ◌↔◌, refl, String, false, Option, none, some, List, [], ◌∷◌, All,
  contains, ltb, arith, if◌then◌else◌, ◌==◌, ok,
}
use apirun.Security.{
  Arg, identifier, field, chain, variable, other_arg, Pipe, Node, action, if_node, range_node,
  with_node, template_node, list_node, other_node, Nodes, nil, cons, ElseList, no_else, else_list,
  Parsed, TemplateError, excessive_depth, TemplateValidator, and_then, is_dangerous,
  validate_identifier, validate_field_access, validate_arg, validate_args, validate_action,
  validate_template_node, validate_node, validate_nodes, validate_else, check_forbidden_patterns,
  validate_template,
}

abbrev max_of : ℕ → ℕ → ℕ
max_of a b = if ltb a b then b else a

-- How deep blocks are nested: the levels of nodes of a list, and those below a node.
unfoldable mutual
  pub nesting : Node → ℕ
  nesting (action p) = 0
  nesting (if_node p b e) = max_of (levels b) (levels_else e)
  nesting (range_node p b e) = max_of (levels b) (levels_else e)
  nesting (with_node p b e) = max_of (levels b) (levels_else e)
  nesting (template_node name p) = 0
  nesting (list_node ns) = levels ns - 1
  nesting (other_node s) = 0

  pub levels : Nodes → ℕ
  levels nil = 0
  levels (cons n ns) = max_of (suc (nesting n)) (levels ns)

  pub levels_else : ElseList → ℕ
  levels_else no_else = 0
  levels_else (else_list ns) = levels ns

and_then-none : (a b : Option TemplateError) → (and_then a b ≡ none) ↔ ((a ≡ none) × (b ≡ none))
and_then-none none b = ground arith
and_then-none (some e) b = ground arith

both :
    {P Q : Type 0} (a b : Option TemplateError)
    → ((a ≡ none) ↔ P)
    → ((b ≡ none) ↔ Q)
    → (and_then a b ≡ none) ↔ (P × Q)
both a b f g = (
  λ h. (f.0 ((and_then-none a b).0 h).0, g.0 ((and_then-none a b).0 h).1),
  λ h. (and_then-none a b).1 (f.1 h.0, g.1 h.1),
)

module _ (v : TemplateValidator) where
  abbrev pub SafeName : String → Type 0
  SafeName name = is_dangerous v name ≡ false

  abbrev pub SafeArg : Arg → Type 0
  SafeArg (identifier name) = SafeName name
  SafeArg (field names) = All SafeName names
  SafeArg (chain names) = All SafeName names
  SafeArg (variable names) = Unit
  SafeArg (other_arg s) = Unit

  -- The arguments of actions are safe, and no included template is named by a path.
  unfoldable mutual
    pub Safe : Node → Type 0
    Safe (action p) = All (λ cmd. All SafeArg cmd) p
    Safe (if_node p b e) = SafeNodes b × SafeElse e
    Safe (range_node p b e) = SafeNodes b × SafeElse e
    Safe (with_node p b e) = SafeNodes b × SafeElse e
    Safe (template_node name p) = (contains name ".." ≡ false) × (contains name "/" ≡ false)
    Safe (list_node ns) = SafeNodes ns
    Safe (other_node s) = Unit

    pub SafeNodes : Nodes → Type 0
    SafeNodes nil = Unit
    SafeNodes (cons n ns) = Safe n × SafeNodes ns

    pub SafeElse : ElseList → Type 0
    SafeElse no_else = Unit
    SafeElse (else_list ns) = SafeNodes ns

  fields_safe : (names : List String) → (validate_field_access v names ≡ none) ↔ All SafeName names
  unfolding validate_field_access
  fields_safe [] = ground arith
  fields_safe (f ∷ names) = ground (arith, fields_safe names)

  arg_safe : (a : Arg) → (validate_arg v a ≡ none) ↔ SafeArg a
  unfolding validate_arg validate_identifier
  arg_safe (identifier name) = ground arith
  arg_safe (field names) = fields_safe names
  arg_safe (chain names) = fields_safe names
  arg_safe (variable names) = ground arith
  arg_safe (other_arg s) = ground arith

  args_safe : (args : List Arg) → (validate_args v args ≡ none) ↔ All SafeArg args
  unfolding validate_args
  args_safe [] = ground arith
  args_safe (a ∷ args) =
      both (validate_arg v a) (validate_args v args) (arg_safe a) (args_safe args)

  action_safe : (p : Pipe) → (validate_action v p ≡ none) ↔ All (λ cmd. All SafeArg cmd) p
  unfolding validate_action
  action_safe [] = ground arith
  action_safe (cmd ∷ p) =
      both (validate_args v cmd) (validate_action v p) (args_safe cmd) (action_safe p)

  name_safe :
      (name : String)
      → (validate_template_node v name ≡ none)
        ↔ ((contains name ".." ≡ false) × (contains name "/" ≡ false))
  unfolding validate_template_node
  name_safe name = ground arith

  -- What a list of nodes at a depth has to keep.
  abbrev Within : Nodes → ℕ → Type 0
  Within ns d = SafeNodes ns × (d + levels ns ≤ suc v.max_depth)

  abbrev WithinElse : ElseList → ℕ → Type 0
  WithinElse e d = SafeElse e × (d + levels_else e ≤ suc v.max_depth)

  block_accepted :
      (b : Nodes) (e : ElseList) (d : ℕ) (n : ℕ)
      → n ≡ max_of (levels b) (levels_else e)
      → d ≤ v.max_depth
      → Within b (suc d)
      → WithinElse e (suc d)
      → (SafeNodes b × SafeElse e) × (d + n ≤ v.max_depth)
  block_accepted b e d n q h x y = ((x.0, y.0), ground (arith, x.1, y.1))

  shallow :
      (d : ℕ) (rest : Option TemplateError)
      → (if ltb v.max_depth d then some excessive_depth else rest) ≡ none
      → (d ≤ v.max_depth) × (rest ≡ none)
  shallow d rest h = ground arith

  shallow_checked :
      (d : ℕ) (rest : Option TemplateError)
      → d ≤ v.max_depth
      → rest ≡ none
      → (if ltb v.max_depth d then some excessive_depth else rest) ≡ none
  shallow_checked d rest h e = ground arith

  mutual
    unfolding validate_node validate_nodes validate_else Safe SafeNodes SafeElse nesting levels
        levels_else

    node_accepted :
        (n : Node) (d : ℕ) → validate_node v n d ≡ none → Safe n × (d + nesting n ≤ v.max_depth)
    node_accepted (action p) d h =
        let (low, inner) = shallow d _ h in ((action_safe p).0 inner, omega arith)
    node_accepted (if_node p b e) d h =
        let (low, inner) = shallow d _ h in
        let (first, rest) = (and_then-none _ _).0 inner in
        block_accepted b e d _ refl low (nodes_accepted b (suc d) (omega arith) first)
          (else_accepted e (suc d) (omega arith) rest)
    node_accepted (range_node p b e) d h =
        let (low, inner) = shallow d _ h in
        let (first, rest) = (and_then-none _ _).0 inner in
        block_accepted b e d _ refl low (nodes_accepted b (suc d) (omega arith) first)
          (else_accepted e (suc d) (omega arith) rest)
    node_accepted (with_node p b e) d h =
        let (low, inner) = shallow d _ h in
        let (first, rest) = (and_then-none _ _).0 inner in
        block_accepted b e d _ refl low (nodes_accepted b (suc d) (omega arith) first)
          (else_accepted e (suc d) (omega arith) rest)
    node_accepted (template_node name p) d h =
        let (low, inner) = shallow d _ h in ((name_safe name).0 inner, omega arith)
    node_accepted (list_node ns) d h =
        let (low, inner) = shallow d _ h in
        let y = nodes_accepted ns d (omega arith) inner in (y.0, omega (arith, y.1))
    node_accepted (other_node s) d h = ground arith

    nodes_accepted :
        (ns : Nodes) (d : ℕ) → d ≤ suc v.max_depth → validate_nodes v ns d ≡ none → Within ns d
    nodes_accepted nil d h e = (tt, omega arith)
    nodes_accepted (cons n ns) d h e =
        let (first, rest) = (and_then-none _ _).0 e in
        let x = node_accepted n d first in
        let y = nodes_accepted ns d h rest in ((x.0, y.0), ground (arith, x.1, y.1))

    else_accepted :
        (b : ElseList) (d : ℕ) → d ≤ suc v.max_depth → validate_else v b d ≡ none → WithinElse b d
    else_accepted no_else d h e = (tt, omega arith)
    else_accepted (else_list ns) d h e = nodes_accepted ns d h e

  mutual
    unfolding validate_node validate_nodes validate_else Safe SafeNodes SafeElse nesting levels
        levels_else

    node_checked :
        (n : Node) (d : ℕ) → Safe n → d + nesting n ≤ v.max_depth → validate_node v n d ≡ none
    node_checked (action p) d s h = shallow_checked d _ (omega arith) ((action_safe p).1 s)
    node_checked (if_node p b e) d s h = shallow_checked d _ (ground arith) (
        (and_then-none _ _).1
          (nodes_checked b (suc d) s.0 (ground arith), else_checked e (suc d) s.1 (ground arith)))
    node_checked (range_node p b e) d s h = shallow_checked d _ (ground arith) (
        (and_then-none _ _).1
          (nodes_checked b (suc d) s.0 (ground arith), else_checked e (suc d) s.1 (ground arith)))
    node_checked (with_node p b e) d s h = shallow_checked d _ (ground arith) (
        (and_then-none _ _).1
          (nodes_checked b (suc d) s.0 (ground arith), else_checked e (suc d) s.1 (ground arith)))
    node_checked (template_node name p) d s h =
        shallow_checked d _ (omega arith) ((name_safe name).1 s)
    node_checked (list_node ns) d s h =
        shallow_checked d _ (omega arith) (nodes_checked ns d s (omega arith))
    node_checked (other_node t) d s h = shallow_checked d none (omega arith) refl

    nodes_checked :
        (ns : Nodes) (d : ℕ)
        → SafeNodes ns
        → d + levels ns ≤ suc v.max_depth
        → validate_nodes v ns d ≡ none
    nodes_checked nil d s h = refl
    nodes_checked (cons n ns) d s h =
        (and_then-none _ _).1
          (node_checked n d s.0 (ground arith), nodes_checked ns d s.1 (ground arith))

    else_checked :
        (e : ElseList) (d : ℕ)
        → SafeElse e
        → d + levels_else e ≤ suc v.max_depth
        → validate_else v e d ≡ none
    else_checked no_else d s h = refl
    else_checked (else_list ns) d s h = nodes_checked ns d s h

  patterns_checked :
      (patterns : List String) (s : String)
      → (check_forbidden_patterns v patterns s ≡ none)
        ↔ All (λ p. v.match_string p s ≡ false) patterns
  unfolding check_forbidden_patterns
  patterns_checked [] s = ground arith
  patterns_checked (p ∷ patterns) s = ground (arith, patterns_checked patterns s)

  -- A text that is not empty and parses is accepted exactly when no forbidden expression matches it,
  -- in its actions no argument that is an identifier, a field or a chain has a dangerous name, no
  -- included template is named by a path, and its blocks are nested at most `max_depth` deep (which is
  -- one level less than its nodes). The fields of a variable, as in `$x.exec`, a parenthesised
  -- pipeline, as in `(.exec)`, and the pipelines of blocks may have any names.
  pub validate_template_iff :
      (s : String) (tree : Parsed)
      → (s == "") ≡ false
      → v.parse s ≡ ok tree
      → (validate_template v s ≡ none) ↔ (
          All (λ p. v.match_string p s ≡ false) v.forbidden_patterns
          × SafeNodes tree.root
          × (levels tree.root ≤ suc v.max_depth))
  unfolding validate_template
  validate_template_iff s tree filled parsed = (
    λ h.
        let (first, rest) = (and_then-none _ _).0 (rw (filled, parsed) at h) in
        let y = nodes_accepted tree.root 0 (omega arith) rest in
        ((patterns_checked v.forbidden_patterns s).0 first, y.0, omega (arith, y.1)),
    λ h.
        rw (filled, parsed)
          ((and_then-none _ _).1 (
            (patterns_checked v.forbidden_patterns s).1 h.0,
            nodes_checked tree.root 0 h.1 (omega (arith, h.2)),
          )),
  )
