-- ===== src/Create.antt =====
-- create.go: a new migration file. The file system is a map from paths to contents; the clock, the
-- creation of directories, filepath.Join and strings.ToLower are parameters.
pub mod Named
use apirun.Prelude.{
  ℕ, String, Bool, true, false, ◌&&◌, ◌||◌, not, Option, none, some, Map, lookup, insert, eqb, leb,
  is_digit, joined, trim_space, replace_all, ◌==◌, Result, ok, err, if◌then◌else◌,
}
use Prim.Native.Char.{code}

pub data CreateError : Type 0 where
  missing_dir : CreateError
  mkdir_failed write_failed : String → CreateError
  file_exists : String → CreateError

pub record CreateOptions : Type 0 where
  pub name : String
  pub dir : String

-- `write` is the error of os.WriteFile, with what such a call leaves at the path: no file, or one with
-- a part of the content. `timestamp` is the time in the layout 20060102150405 and `now` in RFC 3339, both in UTC.
pub record Machine : Type 0 where
  pub timestamp : String
  pub now : String
  pub mkdir : String → Option String
  pub write : String → Option (String × Option String)
  pub join : String → String → String
  pub to_lower : String → String

abbrev pub is_word : ℕ → Bool
is_word c = (leb b'a' c && leb c b'z') || (leb b'A' c && leb c b'Z') || is_digit c || eqb c b'_'

-- nonWord.ReplaceAllString(s, "_"), behind a character that is replaced or not
unfoldable pub replace_non_word : Bool → String → String
replace_non_word in_run String.[] = String.[]
replace_non_word in_run (String.◌∷◌ c s) =
    let kept = replace_non_word false s in
    let replaced = replace_non_word true s in
    if is_word (code c) then String.◌∷◌ c kept else if in_run then replaced else joined "_" replaced

-- strings.Trim(s, "_")
unfoldable pub trim_left_underscores : String → String
trim_left_underscores String.[] = String.[]
trim_left_underscores (String.◌∷◌ c s) =
    let rest = trim_left_underscores s in if eqb (code c) b'_' then rest else String.◌∷◌ c s

abbrev pub keep_before : Bool → String → String → String
keep_before true whole String.[] = String.[]
keep_before true whole (String.◌∷◌ c s) = whole
keep_before false whole rest = whole

unfoldable pub trim_right_underscores : String → String
trim_right_underscores String.[] = String.[]
trim_right_underscores (String.◌∷◌ c s) =
    let rest = trim_right_underscores s in keep_before (eqb (code c) b'_') (String.◌∷◌ c rest) rest

-- slugify
unfoldable pub slugify : (String → String) → String → String
slugify to_lower s =
    trim_right_underscores (
      trim_left_underscores
        (replace_non_word false (replace_all " " "_" (trim_space (to_lower s)))))

-- templateContent
abbrev request_text : String
request_text = joined "\n  env: { }\n  request:\n    method: GET\n    url: https://example.com\n" (
    joined "    headers:\n      - name: User-Agent\n        value: apirun\n" (
      joined "      # - name: Authorization\n" (
        joined "      #   value: \"Bearer {{.auth.token_name}}\"\n" (
          joined "    # body: '{\"key\":\"{{.env.value}}\"}'\n    # render_body: true\n" (
            joined "  response:\n    result_code: [\"200\"]\n    # env_from:\n" (
              joined "    #   example: path.to.value\n\n" (
                joined
                  "# Optional rollback step (delete or revert). Comment out if not applicable.\n"
                  ("# down:\n#   name: "))))))))

unfoldable pub template_content : String → String → String
template_content now name = joined "---\n# Generated by apirun create on " (
    joined now (
      joined
        " (UTC)\n# Edit the request/response sections as needed. Headers must be a list of name/value objects.\nup:\n  name: "
        (joined name (
          joined request_text (
            joined name
              "-rollback\n#   method: DELETE\n#   url: https://example.com/resource/{{.env.id}}\n")))))

abbrev pub or_task : String → String
or_task s = if s == "" then "task" else s

abbrev pub file_name : String → String → String
file_name ts slug = joined ts (joined "_" (joined slug ".yaml"))

-- What a failed write leaves.
abbrev pub left_behind : String → Option String → Map String → Map String
left_behind path none files = files
left_behind path (some part) files = insert path part files

module _ (m : Machine) where
  abbrev pub slug_of : String → String
  slug_of name = or_task (slugify m.to_lower (or_task (trim_space name)))

  -- CreateMigration; a file that is there is not touched.
  unfoldable pub create_migration :
      CreateOptions → Map String → Result CreateError String × Map String
  create_migration opts files =
      let slug = slug_of opts.name in
      let path = m.join opts.dir (file_name m.timestamp slug) in
      if trim_space opts.dir == "" then (err missing_dir, files) else elim (m.mkdir opts.dir) [
        | some e ↦ (err (mkdir_failed e), files)
        | none ↦ elim (lookup path files) [
          | some content ↦ (err (file_exists path), files)
          | none ↦ elim (m.write path) [
            | some (e, part) ↦ (err (write_failed e), left_behind path part files)
            | none ↦ (ok path, insert path (template_content m.now slug) files)
          ]
        ]
      ]
