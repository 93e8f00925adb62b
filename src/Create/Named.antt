-- ===== src/Create/Named.antt =====
-- The name of a created file: its slug, and the version that a run reads from it.
use apirun.Prelude.{
  insert, Option, ◌≢◌, ◌⊎◌, Result, ℕ, ◌+◌, ◌-◌, ◌*◌, ◌^◌, ◌≡◌, ◌<◌, refl, sym, ap, String, Bool,
  true, false, ◌&&◌, none, some, Map, lookup, lookup-insert, List, eqb, is_digit, joined,
  has_suffix, parse_digits, digits_from, trim_space, ◌==◌, eq_refl, eq_iff, ok, err, Bool-cases,
  Option-cases, inl, inr, arith, ℤ, pos, lt→ltb, &&-true, ok-injective,
}
use Prim.Native.Char.{code}
use text.Mathlib.TextLemmas.{nil-append, cons-append, cons≢nil}
use apirun.Migration.Files.{one_line, is_yaml, version_behind, version_of_name}
use apirun.Prelude.Ordered.{tally}
use apirun.Migration.Types.{VersionFile}
use apirun.Migration.Planning.{no_limit, plan_up}
use apirun.Migration.Planned.{plan_up_beyond}
use apirun.Create.{
  CreateOptions, CreateError, write_failed, left_behind, Machine, is_word, replace_non_word,
  trim_left_underscores, keep_before, trim_right_underscores, slugify, or_task, file_name, slug_of,
  create_migration, template_content,
}

unfoldable pub all_word : String → Bool
all_word String.[] = true
all_word (String.◌∷◌ c s) = is_word (code c) && all_word s

all_word-joined : (s t : String) → all_word (joined s t) ≡ (all_word s && all_word t)
unfolding all_word
all_word-joined String.[] t = ap all_word (nil-append t)
all_word-joined (String.◌∷◌ c s) t =
    rw (cons-append c s t, all_word) (ground (arith, all_word-joined s t))

all_word-replace : (in_run : Bool) (s : String) → all_word (replace_non_word in_run s) ≡ true
unfolding all_word replace_non_word
all_word-replace in_run String.[] = refl
all_word-replace in_run (String.◌∷◌ c s) = elim (Bool-cases (is_word (code c))) [
  | inl word ↦ rw (word, replace_non_word) (rw (word, all_word-replace false s))
  | inr other ↦ elim (Bool-cases in_run) [
    | inl more ↦ rw (other, more, replace_non_word) (all_word-replace true s)
    | inr first ↦
        rw (other, first, replace_non_word, all_word-joined "_" (replace_non_word true s))
          (all_word-replace true s)
  ]
]

all_word-trim_left : (s : String) → all_word s ≡ true → all_word (trim_left_underscores s) ≡ true
unfolding all_word trim_left_underscores
all_word-trim_left String.[] h = refl
all_word-trim_left (String.◌∷◌ c s) h = ground (arith, all_word-trim_left s)

all_word-keep_before :
    (b : Bool) (c : Prim.Native.Char.Char) (rest : String)
    → is_word (code c) ≡ true
    → all_word rest ≡ true
    → all_word (keep_before b (String.◌∷◌ c rest) rest) ≡ true
unfolding all_word
all_word-keep_before true c String.[] w r = refl
all_word-keep_before true c (String.◌∷◌ d rest) w r = rw w r
all_word-keep_before false c rest w r = rw w r

all_word-trim_right : (s : String) → all_word s ≡ true → all_word (trim_right_underscores s) ≡ true
unfolding all_word trim_right_underscores
all_word-trim_right String.[] h = refl
all_word-trim_right (String.◌∷◌ c s) h =
    let (word, words) = &&-true _ _ h in
    all_word-keep_before (eqb (code c) b'_') c (trim_right_underscores s) word
      (all_word-trim_right s words)

-- A slug has only letters, digits and underscores.
pub all_word-slugify :
    (to_lower : String → String) (s : String) → all_word (slugify to_lower s) ≡ true
unfolding slugify
all_word-slugify to_lower s =
    all_word-trim_right _ (all_word-trim_left _ (all_word-replace false _))

one_line-word : (s : String) → all_word s ≡ true → one_line s ≡ true
unfolding all_word one_line
one_line-word String.[] h = refl
one_line-word (String.◌∷◌ c s) h = ground (arith, one_line-word s)

one_line-joined :
    (s t : String) → one_line s ≡ true → one_line t ≡ true → one_line (joined s t) ≡ true
unfolding one_line
one_line-joined String.[] t h k = rw (nil-append t) k
one_line-joined (String.◌∷◌ c s) t h k =
    rw (cons-append c s t, one_line) (ground (arith, one_line-joined s t))

has_suffix_self : (t : String) → has_suffix t t ≡ true
unfolding has_suffix
has_suffix_self String.[] = eq_refl ""
has_suffix_self (String.◌∷◌ c s) = rw (eq_refl (String.◌∷◌ c s))

has_suffix-joined : (s t : String) → has_suffix (joined s t) t ≡ true
unfolding has_suffix
has_suffix-joined String.[] t = rw (nil-append t) (has_suffix_self t)
has_suffix-joined (String.◌∷◌ c s) t =
    rw (cons-append c s t, has_suffix) (ground (arith, has_suffix-joined s t))

-- Digits before the underscore of a name.
version_behind-digits :
    (acc n : ℕ) (seen : Bool) (ts slug : String)
    → digits_from acc ts ≡ some n
    → is_yaml slug ≡ true
    → (ts ≡ "" → seen ≡ true)
    → version_behind acc seen (joined ts (joined "_" slug)) ≡ some n
unfolding digits_from version_behind
version_behind-digits acc n seen String.[] slug d x h =
    rw
      (
        nil-append (joined "_" slug),
        cons-append "_" "" slug,
        nil-append slug,
        version_behind,
        h refl,
        x,
      )
      d
version_behind-digits acc n seen (String.◌∷◌ c ts) slug d x h =
    elim (Bool-cases (is_digit (code c))) [
      | inl digit ↦
          rw (cons-append c ts (joined "_" slug), version_behind, digit)
            (version_behind-digits (acc * 10 + (code c - b'0')) n true ts slug
              (rw (digit, digits_from) at d) x (λ e. refl))
      | inr other ↦ absurd (let e = rw (other, digits_from) at d in cc)
    ]

yaml_line : one_line ".yaml" ≡ true
unfolding one_line
yaml_line = refl

is_yaml-joined : (slug : String) → one_line slug ≡ true → is_yaml (joined slug ".yaml") ≡ true
is_yaml-joined slug l =
    rw (one_line-joined slug ".yaml" l yaml_line, has_suffix-joined slug ".yaml")

-- The file that CreateMigration makes at a time stamp has the version of the time stamp.
pub version_of_name-file_name :
    (ts slug : String) (n : ℕ)
    → parse_digits ts ≡ some n
    → n < 2 ^ 63
    → one_line slug ≡ true
    → version_of_name (file_name ts slug) ≡ some n
unfolding parse_digits version_of_name
version_of_name-file_name String.[] slug n d h l = cc
version_of_name-file_name (String.◌∷◌ c ts) slug n d h l = rw (
  version_behind-digits 0 n false (String.◌∷◌ c ts) (joined slug ".yaml") d (is_yaml-joined slug l)
      (λ e. absurd (cons≢nil e)),
  lt→ltb n (2 ^ 63) h,
)

err-injective : {A B : Type 0} {a b : A} → ◌≡◌ {A = Result A B} (err a) (err b) → a ≡ b
err-injective e = cc

-- Another file in place of one that is not there changes no file that is there.
insert-keeps :
    (made content : String) (files : Map String)
    → lookup made files ≡ none
    → (path old : String) → lookup path files ≡ some old
    → lookup path (insert made content files) ≡ some old
insert-keeps made content files free path old h =
    ground (arith, eq_iff made path, lookup-insert made path content files)

insert-others :
    (made content : String) (files : Map String) (path : String)
    → path ≢ made
    → lookup path (insert made content files) ≡ lookup path files
insert-others made content files path other =
    ground (arith, eq_iff made path, lookup-insert made path content files)

left_behind-keeps :
    (made : String) (part : Option String) (files : Map String)
    → lookup made files ≡ none
    → (path old : String) → lookup path files ≡ some old
    → lookup path (left_behind made part files) ≡ some old
left_behind-keeps made none files free path old h = h
left_behind-keeps made (some part) files free path old h =
    insert-keeps made part files free path old h

left_behind-others :
    (made : String) (part : Option String) (files : Map String) (path : String)
    → path ≢ made
    → lookup path (left_behind made part files) ≡ lookup path files
left_behind-others made none files path other = refl
left_behind-others made (some part) files path other = insert-others made part files path other

-- CreateMigration changes no file that is there, and at most the file of its time stamp and slug: a
-- path that it returns is this one, was free, and has the template for the slug. When it fails, files
-- have changed only if the write itself failed, which may have left a part of this new file.
pub create_migration-keeps :
    (m : Machine) (opts : CreateOptions) (files : Map String)
    → ((path content : String)
        → lookup path files ≡ some content
        → lookup path (create_migration m opts files).1 ≡ some content)
      × ((path : String)
          → path ≢ m.join opts.dir (file_name m.timestamp (slug_of m opts.name))
          → lookup path (create_migration m opts files).1 ≡ lookup path files)
      × ((path : String)
          → (create_migration m opts files).0 ≡ ok path
          → (lookup path files ≡ none)
            × (path ≡ m.join opts.dir (file_name m.timestamp (slug_of m opts.name)))
            × (lookup path (create_migration m opts files).1
                ≡ some (template_content m.now (slug_of m opts.name))))
      × ((e : CreateError)
          → (create_migration m opts files).0 ≡ err e
          → ((create_migration m opts files).1 ≡ files)
            ⊎ ((text : String) × (e ≡ write_failed text)))
unfolding create_migration
create_migration-keeps m opts files =
    let slug = slug_of m opts.name in
    let made = m.join opts.dir (file_name m.timestamp slug) in
    elim (Bool-cases (trim_space opts.dir == "")) [
      | inl unset ↦
          rw (unset, create_migration)
            (λ path content h. h, λ path o. refl, λ path h. absurd (cc), λ e h. inl refl)
      | inr set ↦ elim (Option-cases (m.mkdir opts.dir)) [
        | inr (e, bad) ↦
            rw (set, bad, create_migration)
              (λ path content h. h, λ path o. refl, λ path h. absurd (cc), λ e h. inl refl)
        | inl fine ↦ elim (Option-cases (lookup made files)) [
          | inr (content, there) ↦
              rw (set, fine, there, create_migration)
                (λ path content h. h, λ path o. refl, λ path h. absurd (cc), λ e h. inl refl)
          | inl free ↦ elim (Option-cases (m.write made)) [
            | inr ((e, part), full) ↦
                rw (set, fine, free, full, create_migration)
                  (
                    left_behind-keeps made part files free,
                    left_behind-others made part files,
                    λ path h. absurd (cc),
                    λ f h. inr (e, sym (err-injective h)),
                  )
            | inl written ↦
                rw (set, fine, free, written, create_migration)
                  (
                    insert-keeps made (template_content m.now slug) files free,
                    insert-others made (template_content m.now slug) files,
                    λ path h.
                        let same : path ≡ made = sym (ok-injective h) in
                        (
                          rw same free,
                          same,
                          rw same (
                              ground (
                                arith,
                                eq_refl made,
                                lookup-insert made made (template_content m.now slug) files,
                              )),
                        ),
                    λ e h. absurd (cc),
                  )
          ]
        ]
      ]
    ]

task_word : all_word "task" ≡ true
unfolding all_word
task_word = refl

or_task-word : (s : String) → all_word s ≡ true → all_word (or_task s) ≡ true
or_task-word s h = elim (Bool-cases (s == "")) [
  | inl empty ↦ rw (empty, task_word)
  | inr filled ↦ rw (filled, h)
]

-- A file that CreateMigration makes is listed with the version of its time stamp, and a run without
-- a target never plans it, when the time stamp is a number above 2^31 - 1 (as one with 14 digits that
-- does not begin with 0 is) and below 2^63.
pub created-never_planned :
    (m : Machine) (name : String) (n : ℕ)
    → parse_digits m.timestamp ≡ some n
    → no_limit < n
    → n < 2 ^ 63
    → (version_of_name (file_name m.timestamp (slug_of m name)) ≡ some n)
      × ((files : List VersionFile) (cur : ℤ)
          → tally (λ f. eqb f.index n) (plan_up files cur (pos 0)) ≡ 0)
created-never_planned m name n stamp beyond fit = (
  version_of_name-file_name m.timestamp (slug_of m name) n stamp fit (
      one_line-word (slug_of m name) (
        or_task-word (slugify m.to_lower (or_task (trim_space name)))
          (all_word-slugify m.to_lower (or_task (trim_space name))))),
  λ files cur. plan_up_beyond files cur n beyond,
)
