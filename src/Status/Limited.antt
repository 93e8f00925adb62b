-- ===== src/Status/Limited.antt =====
-- FormatHumanWithLimit and FormatColorizedWithLimit of pkg/status/status.go. Each of them has its own
-- copy of the texts, and of the code that reverses the history and cuts it off.
use apirun.Prelude.{
  ℕ, zero, suc, Bool, not, List, [], ◌∷◌, ◌++◌, length, take, leb, ltb, ℤ, pos, negsuc, decimal,
  ◌==◌, if◌then◌else◌,
}
use mathlib.Core.List.{reverse}
use apirun.Status.{
  HistoryItem, Info, Color, bold_blue, green, cyan, gray, magenta, yellow, red, reset, Piece, shown,
  code, list_text, bool_text, color_bool,
}

abbrev pub limited_base : Info → List Piece
limited_base i =
    shown "current:"
    ∷ shown " "
    ∷ shown (decimal i.version)
    ∷ shown "\n"
    ∷ shown "applied:"
    ∷ shown " "
    ∷ shown (list_text i.applied)
    ∷ shown "\n"
    ∷ []

abbrev pub limited_line : HistoryItem → List Piece
limited_line h =
    shown "#"
    ∷ shown (decimal h.id)
    ∷ shown " v="
    ∷ shown (decimal h.version)
    ∷ shown " dir="
    ∷ shown h.direction
    ∷ shown " code="
    ∷ shown (decimal h.status_code)
    ∷ shown " failed="
    ∷ shown (bool_text h.failed)
    ∷ shown " at="
    ∷ shown h.ran_at
    ∷ shown "\n"
    ∷ []

unfoldable pub limited_lines : List HistoryItem → List Piece
limited_lines [] = []
limited_lines (h ∷ hs) = limited_line h ++ limited_lines hs

-- The limit, 10 when it is not positive.
abbrev pub bound_of : ℤ → ℕ
bound_of (pos zero) = 10
bound_of (pos (suc n)) = suc n
bound_of (negsuc n) = 10

-- The items that FormatHumanWithLimit shows: the newest first, as many as the limit unless all are.
unfoldable pub newest : List HistoryItem → ℤ → Bool → List HistoryItem
newest history limit all =
    let rev = reverse history in
    let bound = bound_of limit in
    if all then rev else if ltb bound (length rev) then take bound rev else rev

abbrev pub limited_history : List Piece → List HistoryItem → List HistoryItem → List Piece
limited_history start [] items = start ++ (shown "history:" ∷ shown " \n" ∷ [])
limited_history start (h ∷ hs) items =
    start ++ (shown "history:" ∷ shown "\n" ∷ []) ++ limited_lines items

-- FormatHumanWithLimit
unfoldable pub format_human_with_limit : Info → Bool → ℤ → Bool → List Piece
format_human_with_limit i history limit all =
    if not history
    then limited_base i
    else limited_history (limited_base i) i.history (newest i.history limit all)

abbrev pub limited_color_base : Info → List Piece
limited_color_base i =
    code bold_blue
    ∷ shown "current:"
    ∷ code reset
    ∷ shown " "
    ∷ code green
    ∷ shown (decimal i.version)
    ∷ code reset
    ∷ shown "\n"
    ∷ code bold_blue
    ∷ shown "applied:"
    ∷ code reset
    ∷ shown " "
    ∷ code cyan
    ∷ shown (list_text i.applied)
    ∷ code reset
    ∷ shown "\n"
    ∷ []

abbrev pub limited_color_heading : List Piece
limited_color_heading = code bold_blue ∷ shown "history:" ∷ code reset ∷ []

abbrev pub limited_status_color : HistoryItem → Color
limited_status_color h =
    if h.failed
    then red
    else if leb 400 h.status_code
    then red
    else if leb 300 h.status_code
    then yellow
    else green

abbrev pub limited_direction_color : HistoryItem → Color
limited_direction_color h = if h.direction == "down" then yellow else green

abbrev pub limited_color_line : HistoryItem → List Piece
limited_color_line h =
    code gray
    ∷ shown "#"
    ∷ shown (decimal h.id)
    ∷ code reset
    ∷ shown " v="
    ∷ code magenta
    ∷ shown (decimal h.version)
    ∷ code reset
    ∷ shown " dir="
    ∷ code (limited_direction_color h)
    ∷ shown h.direction
    ∷ code reset
    ∷ shown " code="
    ∷ code (limited_status_color h)
    ∷ shown (decimal h.status_code)
    ∷ code reset
    ∷ shown " failed="
    ∷ code (color_bool h.failed)
    ∷ shown (bool_text h.failed)
    ∷ code reset
    ∷ shown " at="
    ∷ code gray
    ∷ shown h.ran_at
    ∷ code reset
    ∷ shown "\n"
    ∷ []

unfoldable pub limited_color_lines : List HistoryItem → List Piece
limited_color_lines [] = []
limited_color_lines (h ∷ hs) = limited_color_line h ++ limited_color_lines hs

-- The limit of FormatColorizedWithLimit, 10 when it is not positive.
abbrev pub color_bound_of : ℤ → ℕ
color_bound_of (pos zero) = 10
color_bound_of (pos (suc n)) = suc n
color_bound_of (negsuc n) = 10

-- The items that FormatColorizedWithLimit shows.
unfoldable pub color_newest : List HistoryItem → ℤ → Bool → List HistoryItem
color_newest history limit all =
    let rev = reverse history in
    let bound = color_bound_of limit in
    if all then rev else if ltb bound (length rev) then take bound rev else rev

abbrev pub limited_color_history : List Piece → List HistoryItem → List HistoryItem → List Piece
limited_color_history start [] items = start ++ limited_color_heading ++ (shown " \n" ∷ [])
limited_color_history start (h ∷ hs) items =
    start ++ limited_color_heading ++ (shown "\n" ∷ []) ++ limited_color_lines items

-- FormatColorizedWithLimit
unfoldable pub format_colorized_with_limit : Bool → Info → Bool → ℤ → Bool → Bool → List Piece
format_colorized_with_limit terminal i history limit all enable_color =
    if not enable_color
    then format_human_with_limit i history limit all
    else if not terminal
    then format_human_with_limit i history limit all
    else if not history
    then limited_color_base i
    else limited_color_history (limited_color_base i) i.history (color_newest i.history limit all)
