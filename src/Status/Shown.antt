-- ===== src/Status/Shown.antt =====
-- What the status shows of a store.
use apirun.Prelude.{
  ℕ, zero, suc, pos, negsuc, ◌≡◌, refl, subst, ap, Bool, true, false, List, [], ◌∷◌, ◌++◌, map, leb,
  ℤ, Result, ok, err, ok-injective, inl, inr,
}
use apirun.Prelude.Sorting.{sort_by}
use apirun.Retry.{Config}
use apirun.Store.{
  Run, Db, World, StoreError, max_version, shown_run, query, current_version, list_applied,
  list_runs,
}
use apirun.Store.Laws.{Effect, query-Effect}
use apirun.Store.Versions.{Effect-from}
use apirun.Status.{
  HistoryItem, Info, item_of, and_runs, and_applied, and_version, from_store, Piece, shown, code,
  base, line, lines, human_history, format_human, color_base, color_lines, color_history,
  format_colorized,
}
use apirun.Status.Limited.{
  limited_base, limited_line, limited_lines, newest, limited_history, format_human_with_limit,
  limited_color_base, limited_color_lines, color_newest, limited_color_history,
  format_colorized_with_limit,
}

-- The text without the codes for colours.
unfoldable pub plain : List Piece → List Piece
plain [] = []
plain (shown s ∷ ps) = shown s ∷ plain ps
plain (code c ∷ ps) = plain ps

plain-lines : (hs : List HistoryItem) → plain (lines hs) ≡ lines hs
unfolding plain lines
plain-lines [] = refl
plain-lines (h ∷ hs) = ap (λ l. line h ++ l) (plain-lines hs)

plain-color_lines : (hs : List HistoryItem) → plain (color_lines hs) ≡ lines hs
unfolding plain lines color_lines
plain-color_lines [] = refl
plain-color_lines (h ∷ hs) = ap (λ l. line h ++ l) (plain-color_lines hs)

plain-limited_lines : (hs : List HistoryItem) → plain (limited_lines hs) ≡ limited_lines hs
unfolding plain limited_lines
plain-limited_lines [] = refl
plain-limited_lines (h ∷ hs) = ap (λ l. limited_line h ++ l) (plain-limited_lines hs)

plain-limited_color_lines :
    (hs : List HistoryItem) → plain (limited_color_lines hs) ≡ limited_lines hs
unfolding plain limited_lines limited_color_lines
plain-limited_color_lines [] = refl
plain-limited_color_lines (h ∷ hs) = ap (λ l. limited_line h ++ l) (plain-limited_color_lines hs)

-- Both copies of the code that cuts off the history choose the same items.
color_newest-agrees :
    (history : List HistoryItem) (limit : ℤ) (all : Bool)
    → color_newest history limit all ≡ newest history limit all
unfolding color_newest newest
color_newest-agrees history (pos zero) all = refl
color_newest-agrees history (pos (suc n)) all = refl
color_newest-agrees history (negsuc n) all = refl

plain-human_history :
    (i : Info) (history : List HistoryItem)
    → plain (human_history (base i) history) ≡ human_history (base i) history
unfolding plain
plain-human_history i [] = refl
plain-human_history i (h ∷ history) =
    ap (λ l. base i ++ (shown "history:" ∷ shown "\n" ∷ l)) (plain-lines (h ∷ history))

plain-color_history :
    (i : Info) (history : List HistoryItem)
    → plain (color_history (color_base i) history) ≡ human_history (base i) history
unfolding plain
plain-color_history i [] = refl
plain-color_history i (h ∷ history) =
    ap (λ l. base i ++ (shown "history:" ∷ shown "\n" ∷ l)) (plain-color_lines (h ∷ history))

plain-limited_history :
    (i : Info) (history items : List HistoryItem)
    → plain (limited_history (limited_base i) history items)
      ≡ limited_history (limited_base i) history items
unfolding plain
plain-limited_history i [] items = refl
plain-limited_history i (h ∷ history) items =
    ap (λ l. limited_base i ++ (shown "history:" ∷ shown "\n" ∷ l)) (plain-limited_lines items)

plain-limited_color_history :
    (i : Info) (history items : List HistoryItem)
    → plain (limited_color_history (limited_color_base i) history items)
      ≡ limited_history (limited_base i) history items
unfolding plain
plain-limited_color_history i [] items = refl
plain-limited_color_history i (h ∷ history) items =
    ap (λ l. limited_base i ++ (shown "history:" ∷ shown "\n" ∷ l))
      (plain-limited_color_lines items)

plain-human :
    (i : Info) (history : Bool) (limit : ℤ) (all : Bool)
    → (plain (format_human i history) ≡ format_human i history)
      × (plain (format_human_with_limit i history limit all)
          ≡ format_human_with_limit i history limit all)
unfolding plain format_human format_human_with_limit
plain-human i false limit all = (refl, refl)
plain-human i true limit all =
    (plain-human_history i i.history, plain-limited_history i i.history _)

-- Whatever the output is and whether colours are on, the colourised status shows, up to the codes for
-- colours, what the plain one shows, with and without a limit on the history.
pub plain-format_colorized :
    (terminal : Bool) (i : Info) (history : Bool) (limit : ℤ) (all colors : Bool)
    → (plain (format_colorized terminal i history colors) ≡ format_human i history)
      × (plain (format_colorized_with_limit terminal i history limit all colors)
          ≡ format_human_with_limit i history limit all)
unfolding plain format_colorized format_colorized_with_limit format_human format_human_with_limit
plain-format_colorized terminal i history limit all false = plain-human i history limit all
plain-format_colorized false i history limit all true = plain-human i history limit all
plain-format_colorized true i false limit all true = (refl, refl)
plain-format_colorized true i true limit all true = (
  plain-color_history i i.history,
  rw (color_newest-agrees i.history limit all) (plain-limited_color_history i i.history _),
)

module _ (cfg : Config) (w : World) where
  -- What a store with these tables holds.
  abbrev pub info_of : Info
  info_of = record {
    version = max_version w.db.versions;
    applied = sort_by leb w.db.versions;
    history = map item_of (map shown_run w.db.runs);
  }

  -- A read behind reads shows the same tables.
  read_again :
      {A : Type 0} (f : Db → A) (w₁ : World)
      → w₁.db ≡ w.db
      → w₁.now ≡ w.now
      → Effect (f w.db) w.db w (query cfg f w₁)
  read_again f w₁ same clock =
      Effect-from (f w.db) w.db w w₁ (query cfg f w₁) same clock
        (subst (λ db. Effect (f db) db w₁ (query cfg f w₁)) same (query-Effect cfg w₁ f))

  kept : {A : Type 0} (a : A) (r : Result StoreError A × World) → Effect a w.db w r → r.1.db ≡ w.db
  kept a r x = elim x.outcome [ inl (e, d) ↦ d | inr (f, e, d) ↦ d ]

  failed_too :
      {A B : Type 0} (a : A) (b : B) (e : StoreError) (w' : World)
      → Effect a w.db w (err e, w')
      → Effect b w.db w (err e, w')
  failed_too a b e w' x = record {
    outcome = inr (e, refl, kept a (err e, w') x);
    same_clock = x.same_clock;
  }

  got : {A : Type 0} (a b : A) (w' : World) → Effect a w.db w (ok b, w') → b ≡ a
  got a b w' x = elim x.outcome [ inl (e, d) ↦ ok-injective e | inr (f, e, d) ↦ cc ]

  and_runs-Effect :
      (r : Result StoreError (List Run) × World)
      → Effect (map shown_run w.db.runs) w.db w r
      → Effect info_of w.db w (and_runs (max_version w.db.versions) (sort_by leb w.db.versions) r)
  and_runs-Effect (err e, w') x = failed_too (map shown_run w.db.runs) info_of e w' x
  and_runs-Effect (ok runs, w') x = rw (got (map shown_run w.db.runs) runs w' x) (record {
    outcome = inl (refl, kept (map shown_run w.db.runs) (ok runs, w') x);
    same_clock = x.same_clock;
  })

  and_applied-Effect :
      (r : Result StoreError (List ℕ) × World)
      → Effect (sort_by leb w.db.versions) w.db w r
      → Effect info_of w.db w (and_applied cfg (max_version w.db.versions) r)
  unfolding list_runs
  and_applied-Effect (err e, w') x = failed_too (sort_by leb w.db.versions) info_of e w' x
  and_applied-Effect (ok applied, w') x = rw (got (sort_by leb w.db.versions) applied w' x) (
      and_runs-Effect (query cfg (λ db. map shown_run db.runs) w') (
        read_again (λ db. map shown_run db.runs) w'
          (kept (sort_by leb w.db.versions) (ok applied, w') x) x.same_clock))

  and_version-Effect :
      (r : Result StoreError ℕ × World)
      → Effect (max_version w.db.versions) w.db w r
      → Effect info_of w.db w (and_version cfg r)
  unfolding list_applied
  and_version-Effect (err e, w') x = failed_too (max_version w.db.versions) info_of e w' x
  and_version-Effect (ok version, w') x = rw (got (max_version w.db.versions) version w' x) (
      and_applied-Effect (query cfg (λ db. sort_by leb db.versions) w') (
        read_again (λ db. sort_by leb db.versions) w'
          (kept (max_version w.db.versions) (ok version, w') x) x.same_clock))

  -- FromStore returns the highest version, the sorted versions and all runs in their order, or an
  -- error; it changes no table, whatever attempts the database refuses.
  pub from_store-Effect : Effect info_of w.db w (from_store cfg w)
  unfolding from_store current_version
  from_store-Effect =
      and_version-Effect (query cfg (λ db. max_version db.versions) w)
        (query-Effect cfg w (λ db. max_version db.versions))
