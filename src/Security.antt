-- ===== src/Security.antt =====
-- pkg/security/template_validator.go: templates are checked before they are executed. Parsing
-- (text/template/parse), the regular expressions and strings.ToLower are parameters.
pub mod Accepted
use apirun.Prelude.{
  ℕ, suc, String, Bool, true, false, ◌||◌, Option, none, some, List, [], ◌∷◌, any, contains, ltb,
  ◌==◌, Result, ok, err, replace_all, if◌then◌else◌,
}

-- A pipeline is a list of commands, and a command a list of arguments. What follows a chain's
-- operand are its fields, and what follows a variable's name are its fields too. `other_arg` stands
-- for the other arguments, a parenthesised pipeline among them.
pub data Arg : Type 0 where
  identifier : String → Arg
  field : List String → Arg
  chain : List String → Arg
  variable : List String → Arg
  other_arg : String → Arg

abbrev pub Pipe : Type 0
Pipe = List (List Arg)

mutual
  pub data Node : Type 0 where
    action : Pipe → Node
    if_node range_node with_node : Pipe → Nodes → ElseList → Node
    template_node : String → Pipe → Node
    list_node : Nodes → Node
    -- text, comments and what else the parser knows
    other_node : String → Node

  pub data Nodes : Type 0 where
    nil : Nodes
    cons : Node → Nodes → Nodes

  pub data ElseList : Type 0 where
    no_else : ElseList
    else_list : Nodes → ElseList

-- The template itself, and those that it defines by {{define}}.
pub record Parsed : Type 0 where
  pub root : Nodes
  pub defined : List (String × Nodes)

pub data TemplateError : Type 0 where
  dangerous_pattern dangerous_identifier dangerous_field dangerous_name : String → TemplateError
  excessive_depth : TemplateError
  parse_error execute_error : String → TemplateError

pub record TemplateValidator : Type 0 where
  pub max_depth : ℕ
  -- the expressions that are forbidden, and whether one matches a text
  pub forbidden_patterns : List String
  pub match_string : String → String → Bool
  pub parse : String → Result String Parsed
  pub to_lower : String → String

-- The first error of a sequence of checks.
abbrev pub and_then : Option TemplateError → Option TemplateError → Option TemplateError
and_then none later = later
and_then (some e) later = some e

module _ (v : TemplateValidator) where
  abbrev pub is_dangerous : String → Bool
  is_dangerous name =
      let lower = v.to_lower name in
      contains lower "exec"
      || contains lower "system"
      || contains lower "cmd"
      || contains lower "eval"
      || contains lower "run"

  -- validateIdentifier
  unfoldable pub validate_identifier : String → Option TemplateError
  validate_identifier ident = if is_dangerous ident then some (dangerous_identifier ident) else none

  -- validateFieldAccess, also of each field of a chain
  unfoldable pub validate_field_access : List String → Option TemplateError
  validate_field_access [] = none
  validate_field_access (f ∷ fields) =
      let rest = validate_field_access fields in
      if is_dangerous f then some (dangerous_field f) else rest

  -- validateArg
  unfoldable pub validate_arg : Arg → Option TemplateError
  validate_arg (identifier ident) = validate_identifier ident
  validate_arg (field fields) = validate_field_access fields
  validate_arg (chain fields) = validate_field_access fields
  validate_arg (variable names) = none
  validate_arg (other_arg s) = none

  unfoldable pub validate_args : List Arg → Option TemplateError
  validate_args [] = none
  validate_args (a ∷ args) = and_then (validate_arg a) (validate_args args)

  -- validateAction
  unfoldable pub validate_action : Pipe → Option TemplateError
  validate_action [] = none
  validate_action (cmd ∷ cmds) = and_then (validate_args cmd) (validate_action cmds)

  -- validateTemplateNode
  unfoldable pub validate_template_node : String → Option TemplateError
  validate_template_node name =
      if contains name ".." || contains name "/" then some (dangerous_name name) else none

  -- validateNode, with validateIfNode and its kin, and validateListNode
  unfoldable mutual
    pub validate_node : Node → ℕ → Option TemplateError
    validate_node (action pipe) depth =
        if ltb v.max_depth depth then some excessive_depth else validate_action pipe
    validate_node (if_node pipe list else_) depth =
        let inner = and_then (validate_nodes list (suc depth)) (validate_else else_ (suc depth)) in
        if ltb v.max_depth depth then some excessive_depth else inner
    validate_node (range_node pipe list else_) depth =
        let inner = and_then (validate_nodes list (suc depth)) (validate_else else_ (suc depth)) in
        if ltb v.max_depth depth then some excessive_depth else inner
    validate_node (with_node pipe list else_) depth =
        let inner = and_then (validate_nodes list (suc depth)) (validate_else else_ (suc depth)) in
        if ltb v.max_depth depth then some excessive_depth else inner
    validate_node (template_node name pipe) depth =
        if ltb v.max_depth depth then some excessive_depth else validate_template_node name
    validate_node (list_node nodes) depth =
        let inner = validate_nodes nodes depth in
        if ltb v.max_depth depth then some excessive_depth else inner
    validate_node (other_node s) depth =
        if ltb v.max_depth depth then some excessive_depth else none

    pub validate_nodes : Nodes → ℕ → Option TemplateError
    validate_nodes nil depth = none
    validate_nodes (cons child nodes) depth =
        and_then (validate_node child depth) (validate_nodes nodes depth)

    pub validate_else : ElseList → ℕ → Option TemplateError
    validate_else no_else depth = none
    validate_else (else_list nodes) depth = validate_nodes nodes depth

  -- checkForbiddenPatterns
  unfoldable pub check_forbidden_patterns : List String → String → Option TemplateError
  check_forbidden_patterns [] s = none
  check_forbidden_patterns (p ∷ patterns) s =
      let rest = check_forbidden_patterns patterns s in
      if v.match_string p s then some (dangerous_pattern p) else rest

  -- ValidateTemplate
  unfoldable pub validate_template : String → Option TemplateError
  validate_template s =
      if s == ""
      then none
      else and_then (check_forbidden_patterns v.forbidden_patterns s)
          (elim (v.parse s) [ err e ↦ some (parse_error e) | ok tree ↦ validate_nodes tree.root 0 ])

-- SanitizeInput, where `without_backticks` is the replacement of a text between backticks
unfoldable pub sanitize_input : (String → String) → String → String
sanitize_input without_backticks input = replace_all ">" "&gt;" (
    replace_all "<" "&lt;" (
      replace_all "&" "&amp;" (
        replace_all ";" "" (
          replace_all "|" "" (replace_all "$" "" (replace_all "`" "" (without_backticks input)))))))
