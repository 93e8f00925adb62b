-- ===== src/Status.antt =====
-- pkg/status/status.go: the state of a store, and how it is shown. A text is a list of pieces, so that
-- the codes for colours can be told from what is shown; whether the output is a terminal is a
-- parameter. `true` and `false` of %t are texts too.
pub mod Limited
pub mod Shown
use apirun.Prelude.{
  ℕ, zero, suc, ◌-◌, String, Bool, true, false, not, Option, none, some, List, [], ◌∷◌, ◌++◌,
  length, take, map, Map, leb, ltb, ltb_ℤ, ℤ, pos, negsuc, eqb, decimal, joined, ◌==◌, Result, ok,
  err, if◌then◌else◌,
}
use mathlib.Core.List.{reverse}
use apirun.Retry.{Config}
use apirun.Store.{Run, World, StoreError, Op, current_version, list_applied, list_runs}

-- apirun.RunHistory and HistoryItem have the fields of a run.
pub record HistoryItem : Type 0 where
  pub id : ℕ
  pub version : ℕ
  pub direction : String
  pub status_code : ℕ
  pub failed : Bool
  pub ran_at : String
  pub body : Option String
  pub env : Option (Map String)

pub record Info : Type 0 where
  pub version : ℕ
  pub applied : List ℕ
  pub history : List HistoryItem

abbrev pub item_of : Run → HistoryItem
item_of r = record {
  id = r.id;
  version = r.version;
  direction = r.direction;
  status_code = r.status_code;
  failed = r.failed;
  ran_at = r.ran_at;
  body = r.body;
  env = r.env;
}

abbrev pub and_runs :
    ℕ → List ℕ → Result StoreError (List Run) × World → Result StoreError Info × World
and_runs version applied (err e, w) = (err e, w)
and_runs version applied (ok runs, w) =
    (ok (record { version = version; applied = applied; history = map item_of runs }), w)

abbrev pub and_applied :
    Config → ℕ → Result StoreError (List ℕ) × World → Result StoreError Info × World
and_applied cfg version (err e, w) = (err e, w)
and_applied cfg version (ok applied, w) = and_runs version applied (list_runs cfg w)

abbrev pub and_version : Config → Result StoreError ℕ × World → Result StoreError Info × World
and_version cfg (err e, w) = (err e, w)
and_version cfg (ok version, w) = and_applied cfg version (list_applied cfg w)

-- FromStore
unfoldable pub from_store : Config → Op Info
from_store cfg w = and_version cfg (current_version cfg w)

pub data Color : Type 0 where
  bold_blue green cyan gray magenta yellow red reset : Color

pub data Piece : Type 0 where
  shown : String → Piece
  code : Color → Piece

-- The numbers of a list behind the first one, as in %v.
unfoldable pub spaced : List ℕ → String
spaced [] = "]"
spaced (n ∷ ns) = joined " " (joined (decimal n) (spaced ns))

unfoldable pub list_text : List ℕ → String
list_text [] = "[]"
list_text (n ∷ ns) = joined "[" (joined (decimal n) (spaced ns))

abbrev pub bool_text : Bool → String
bool_text true = "true"
bool_text false = "false"

abbrev pub base : Info → List Piece
base i =
    shown "current:"
    ∷ shown " "
    ∷ shown (decimal i.version)
    ∷ shown "\n"
    ∷ shown "applied:"
    ∷ shown " "
    ∷ shown (list_text i.applied)
    ∷ shown "\n"
    ∷ []

abbrev pub line : HistoryItem → List Piece
line h =
    shown "#"
    ∷ shown (decimal h.id)
    ∷ shown " v="
    ∷ shown (decimal h.version)
    ∷ shown " dir="
    ∷ shown h.direction
    ∷ shown " code="
    ∷ shown (decimal h.status_code)
    ∷ shown " failed="
    ∷ shown (bool_text h.failed)
    ∷ shown " at="
    ∷ shown h.ran_at
    ∷ shown "\n"
    ∷ []

unfoldable pub lines : List HistoryItem → List Piece
lines [] = []
lines (h ∷ hs) = line h ++ lines hs

-- FormatHuman behind its check on the flag
abbrev pub human_history : List Piece → List HistoryItem → List Piece
human_history start [] = start ++ (shown "history:" ∷ shown " \n" ∷ [])
human_history start (h ∷ hs) = start ++ (shown "history:" ∷ shown "\n" ∷ []) ++ lines (h ∷ hs)

-- FormatHuman
unfoldable pub format_human : Info → Bool → List Piece
format_human i history = if not history then base i else human_history (base i) i.history

abbrev pub color_base : Info → List Piece
color_base i =
    code bold_blue
    ∷ shown "current:"
    ∷ code reset
    ∷ shown " "
    ∷ code green
    ∷ shown (decimal i.version)
    ∷ code reset
    ∷ shown "\n"
    ∷ code bold_blue
    ∷ shown "applied:"
    ∷ code reset
    ∷ shown " "
    ∷ code cyan
    ∷ shown (list_text i.applied)
    ∷ code reset
    ∷ shown "\n"
    ∷ []

abbrev pub color_heading : List Piece
color_heading = code bold_blue ∷ shown "history:" ∷ code reset ∷ []

abbrev pub status_color : HistoryItem → Color
status_color h =
    if h.failed
    then red
    else if leb 400 h.status_code
    then red
    else if leb 300 h.status_code
    then yellow
    else green

abbrev pub direction_color : HistoryItem → Color
direction_color h = if h.direction == "down" then yellow else green

-- colorBool
abbrev pub color_bool : Bool → Color
color_bool failed = if failed then red else green

abbrev pub color_line : HistoryItem → List Piece
color_line h =
    code gray
    ∷ shown "#"
    ∷ shown (decimal h.id)
    ∷ code reset
    ∷ shown " v="
    ∷ code magenta
    ∷ shown (decimal h.version)
    ∷ code reset
    ∷ shown " dir="
    ∷ code (direction_color h)
    ∷ shown h.direction
    ∷ code reset
    ∷ shown " code="
    ∷ code (status_color h)
    ∷ shown (decimal h.status_code)
    ∷ code reset
    ∷ shown " failed="
    ∷ code (color_bool h.failed)
    ∷ shown (bool_text h.failed)
    ∷ code reset
    ∷ shown " at="
    ∷ code gray
    ∷ shown h.ran_at
    ∷ code reset
    ∷ shown "\n"
    ∷ []

unfoldable pub color_lines : List HistoryItem → List Piece
color_lines [] = []
color_lines (h ∷ hs) = color_line h ++ color_lines hs

-- FormatColorized behind its check on the flag
abbrev pub color_history : List Piece → List HistoryItem → List Piece
color_history start [] = start ++ color_heading ++ (shown " \n" ∷ [])
color_history start (h ∷ hs) = start ++ color_heading ++ (shown "\n" ∷ []) ++ color_lines (h ∷ hs)

-- FormatColorized, on a terminal or not
unfoldable pub format_colorized : Bool → Info → Bool → Bool → List Piece
format_colorized terminal i history enable_color =
    if not enable_color
    then format_human i history
    else if not terminal
    then format_human i history
    else if not history
    then color_base i
    else color_history (color_base i) i.history
