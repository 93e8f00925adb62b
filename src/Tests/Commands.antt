-- ===== src/Tests/Commands.antt =====
-- Templates, new migration files, their check, waiting and the status at small inputs.
use apirun.Prelude.{
  ◌≡◌, ◌⊎◌, refl, ℕ, suc, String, true, false, none, some, List, [], ◌∷◌, pos, ok, err, joined,
  ◌==◌, lookup, All, ◌≤◌, ◌<◌, ◌↔◌, parse_digits, digits_from, arith, eqb, Map, ◌≢◌, ℤ,
  if◌then◌else◌, keep, trim_space, trim_left, trim_right, ltb_ℤ, add_ℤ, has_suffix, zero,
}
use apirun.Prelude.Ordered.{tally}
use apirun.Prelude.Sorting.{sort_by, str_leb}
use apirun.Security.{
  TemplateValidator, Parsed, validate_template, if_node, field, cons, nil, no_else, action,
  identifier,
}
use apirun.Security.Accepted.{SafeNodes, levels, validate_template_iff}
use apirun.Env.{new_env}
use apirun.Env.Render.{Engine}
use apirun.Migration.Types.{VersionFile}
use apirun.Migration.Planning.{plan_up}
use apirun.Migration.Files.{version_of_name, one_line}
use apirun.Create.{
  write_failed, Machine, CreateOptions, CreateError, file_name, slug_of, create_migration,
  template_content,
}
use apirun.Create.Named.{created-never_planned, create_migration-keeps}
use apirun.Validation.{Yaml, Fields, map, text, seq, entry, end, Items, ValidationResult}
use apirun.Validation.Structure.{get, validate_migration_structure}
use apirun.Validation.Rules.{Clean, UpOk, DownOk}
use apirun.Validation.Valid.{validate_migration_structure_iff, validate_migration_structure-headers}
use apirun.Validation.Files.{
  Disk, matches_behind, find_migration_files, validate_command, error_count,
}
use apirun.Validation.Counts.{Correct, checked, validate_command_lem}
use apirun.Wait.{
  Surroundings, TlsConfig, WaitParams, perform_http_request, WaitConfig, ClientConfig, do_wait,
  setup_tls_config, parse_wait_config,
}
use apirun.Wait.Polled.{Expected, Waiting, do_wait_succeeds, do_wait_ends}
use apirun.Status.{Info, format_colorized, format_human}
use apirun.Status.Limited.{format_colorized_with_limit, format_human_with_limit}
use apirun.Status.Shown.{plain, plain-format_colorized}

-- A template with one block that uses a variable.
abbrev tree : Parsed
tree = record {
  root =
      cons
        (if_node ((field ("env" ∷ "id" ∷ []) ∷ []) ∷ [])
          (cons (action ((identifier "printf" ∷ field ("env" ∷ "id" ∷ []) ∷ []) ∷ [])) nil) no_else)
        nil;
  defined = [];
}

abbrev validator : TemplateValidator
validator = record {
  max_depth = 10;
  forbidden_patterns = "../" ∷ [];
  match_string = λ p s. p == s;
  parse = λ s. ok tree;
  to_lower = λ s. s;
}

validate_template_iff_example :
    (validate_template validator "{{if .env.id}}{{printf .env.id}}{{end}}" ≡ none) ↔ (
      All (λ p. (p == "{{if .env.id}}{{printf .env.id}}{{end}}") ≡ false) ("../" ∷ [])
      × SafeNodes validator tree.root
      × (levels tree.root ≤ 11))
validate_template_iff_example =
    validate_template_iff validator "{{if .env.id}}{{printf .env.id}}{{end}}" tree refl refl

abbrev machine : Machine
machine = record {
  timestamp = "20240102030405";
  now = "2024-01-02T03:04:05Z";
  mkdir = λ dir. none;
  write = λ path. none;
  join = λ a b. joined a (joined "/" b);
  to_lower = λ s. s;
}

stamp_read : parse_digits "20240102030405" ≡ some 20240102030405
unfolding parse_digits digits_from
stamp_read = refl

created-never_planned_example :
    (version_of_name (file_name "20240102030405" (slug_of machine "add user"))
      ≡ some 20240102030405)
    × ((files : List VersionFile) (cur : ℤ)
        → tally (λ f. eqb f.index 20240102030405) (plan_up files cur (pos 0)) ≡ 0)
created-never_planned_example =
    created-never_planned machine "add user" 20240102030405 stamp_read (omega arith) (omega arith)

abbrev present : Map String
present = ("dir/001_a.yaml", "up:") ∷ []

abbrev options : CreateOptions
options = record { name = "add user"; dir = "dir" }

-- A disk that is full behind the first line.
abbrev full : Machine
full = record machine { write = λ path. some ("no space left", some "---") }

create_migration-keeps_example :
    ((path content : String)
      → lookup path present ≡ some content
      → lookup path (create_migration full options present).1 ≡ some content)
    × ((path : String)
        → path ≢ full.join "dir" (file_name "20240102030405" (slug_of full "add user"))
        → lookup path (create_migration full options present).1 ≡ lookup path present)
    × ((path : String)
        → (create_migration full options present).0 ≡ ok path
        → (lookup path present ≡ none)
          × (path ≡ full.join "dir" (file_name "20240102030405" (slug_of full "add user")))
          × (lookup path (create_migration full options present).1
              ≡ some (template_content full.now (slug_of full "add user"))))
    × ((e : CreateError)
        → (create_migration full options present).0 ≡ err e
        → ((create_migration full options present).1 ≡ present)
          ⊎ ((text : String) × (e ≡ write_failed text)))
create_migration-keeps_example = create_migration-keeps full options present

abbrev no_items : Items
no_items = Items.nil

-- A migration with a request and headers.
abbrev request_with : Yaml → Fields
request_with headers =
    entry "method" (text "GET") (entry "url" (text "/users") (entry "headers" headers end))

abbrev up_with : Yaml → Fields
up_with headers = entry "name" (text "users") (entry "request" (map (request_with headers)) end)

abbrev migration_with : Yaml → Fields
migration_with headers = entry "up" (map (up_with headers)) end

abbrev blank_result : ValidationResult
blank_result = record { file = "001_users.yaml"; errors = []; warnings = []; valid = true }

validate_migration_structure_iff_example :
    Clean (validate_migration_structure (λ s. s) (migration_with (map end)) blank_result)
    ↔ (UpOk (get "up" (migration_with (map end))) × DownOk (get "down" (migration_with (map end))))
validate_migration_structure_iff_example =
    validate_migration_structure_iff (λ s. s) (migration_with (map end)) blank_result refl

got_fields :
    (get "up" (migration_with (seq no_items)) ≡ some (map (up_with (seq no_items))))
    × (get "request" (up_with (seq no_items)) ≡ some (map (request_with (seq no_items))))
    × (get "headers" (request_with (seq no_items)) ≡ some (seq no_items))
unfolding get
got_fields = (refl, refl, refl)

validate_migration_structure-headers_example :
    ¬ Clean (validate_migration_structure (λ s. s) (migration_with (seq no_items)) blank_result)
validate_migration_structure-headers_example =
    validate_migration_structure-headers (λ s. s) (migration_with (seq no_items))
      (up_with (seq no_items)) (request_with (seq no_items)) no_items blank_result refl got_fields.0
      got_fields.1 got_fields.2

-- One file with headers as a map, and one with headers as a list.
abbrev disk : Disk
disk = record {
  is_missing = λ dir. false;
  walk = λ dir. ok (
      record { path = "m/002_b.yaml"; name = "002_b.yaml"; is_dir = false }
      ∷ record { path = "m/notes.txt"; name = "notes.txt"; is_dir = false }
      ∷ record { path = "m/001_a.yml"; name = "001_a.yml"; is_dir = false }
      ∷ []);
  read = λ path. ok path;
  decode = λ path.
      ok
        (if path == "m/001_a.yml" then migration_with (map end) else migration_with (seq no_items));
  to_upper = λ s. s;
}

abbrev paths : List String
paths = "m/001_a.yml" ∷ "m/002_b.yaml" ∷ []

found_paths : find_migration_files disk "m" ≡ ok paths
unfolding find_migration_files matches_behind keep has_suffix sort_by one_line str_leb
found_paths = refl

validate_command_lem_example :
    ((validate_command disk "m" ≡ ok none) ↔ All (Correct disk) paths)
    × ((n : ℕ)
        → validate_command disk "m" ≡ ok (some n)
        → (n ≡ error_count (checked disk paths)) × (0 < n))
validate_command_lem_example = validate_command_lem disk "m" paths refl found_paths

abbrev engine : Engine
engine = record { validator = validator; execute = λ s vars auth. ok s; acquire = λ s. s }

-- The third probe gets the status; the clock shows the number of the probe.
abbrev surroundings : Surroundings
surroundings = record {
  engine = engine;
  to_lower = λ s. s;
  to_upper = λ s. s;
  parse_duration = λ s. some (pos 5);
  probe = λ method url tls n. record { status = if eqb n 2 then 200 else 503; error = none };
  started = pos 0;
  clock = λ n. pos n;
  done = λ n. none;
}

abbrev wait_config : WaitConfig
wait_config = record {
  url = "http://localhost/health";
  method = "";
  status = 0;
  timeout = "5s";
  interval = "";
}

abbrev client : ClientConfig
client = record { insecure = false; min_tls_version = ""; max_tls_version = "1.3" }

abbrev tls : TlsConfig
tls = setup_tls_config surroundings client

abbrev params : WaitParams
params = parse_wait_config surroundings wait_config new_env

program : Unit {0}
unfolding trim_left trim_right parse_wait_config perform_http_request add_ℤ
program = tt

has_url : (trim_space wait_config.url == "") ≡ false
unfolding program
has_url = refl

answered : Expected surroundings tls params (add_ℤ (pos 0) params.timeout) 2
unfolding program
answered = refl

waits : (i : ℕ) → i < 2 → Waiting surroundings tls params (add_ℤ (pos 0) params.timeout) i
unfolding program
waits zero h = (refl, refl)
waits (suc zero) h = (refl, refl)
waits (suc (suc i)) h = absurd (omega arith)

over : ltb_ℤ (add_ℤ (pos 0) params.timeout) (pos 6) ≡ true
unfolding program
over = refl

do_wait_succeeds_example : do_wait surroundings 9 new_env wait_config client ≡ some (ok tt)
do_wait_succeeds_example =
    do_wait_succeeds surroundings 9 new_env wait_config client 2 has_url (omega arith) answered
      waits

do_wait_ends_example :
    (do_wait surroundings 9 new_env wait_config client ≢ none)
    × (do_wait surroundings 9 new_env wait_config client ≡ some (ok tt)
        → (i : ℕ) × Expected surroundings tls params (add_ℤ (pos 0) params.timeout) i)
do_wait_ends_example =
    do_wait_ends surroundings 9 new_env wait_config client 6 has_url (omega arith) over

abbrev info : Info
info = record {
  version = 2;
  applied = 1 ∷ 2 ∷ [];
  history =
      record {
        id = 1;
        version = 2;
        direction = "up";
        status_code = 404;
        failed = true;
        ran_at = "2024-01-02T03:04:05Z";
        body = none;
        env = none;
      }
      ∷ [];
}

plain-format_colorized_example :
    (plain (format_colorized true info true true) ≡ format_human info true)
    × (plain (format_colorized_with_limit true info true (pos 1) false true)
        ≡ format_human_with_limit info true (pos 1) false)
plain-format_colorized_example = plain-format_colorized true info true (pos 1) false true
