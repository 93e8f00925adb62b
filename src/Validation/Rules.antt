-- ===== src/Validation/Rules.antt =====
-- What a correct migration file holds, and how a check adds errors.
use apirun.Prelude.{◌≡◌, ◌≢◌, ◌↔◌, false, Option, none, some, List, [], ◌∷◌, snoc, ◌==◌, trim_space}
use apirun.Validation.{
  Yaml, text, int, scalar, map, seq, Items, nil, cons, Fields, Issue, ValidationResult, add_error,
}
use apirun.Validation.Structure.{get}

abbrev pub Clean : ValidationResult → Type 0
Clean r = r.errors ≡ []

-- What a field may hold.
abbrev pub MapOrAbsent : Option Yaml → Type 0
MapOrAbsent none = Unit
MapOrAbsent (some (map fields)) = Unit
MapOrAbsent (some v) = ⊥

abbrev pub FilledText : Option Yaml → Type 0
FilledText (some (text s)) = (trim_space s == "") ≡ false
FilledText o = ⊥

abbrev pub AnyText : Option Yaml → Type 0
AnyText (some (text s)) = Unit
AnyText o = ⊥

abbrev pub Codes : Items → Type 0
Codes nil = Unit
Codes (cons (text c) codes) = Codes codes
Codes (cons (int c) codes) = Codes codes
Codes (cons (scalar c) codes) = ⊥
Codes (cons (map c) codes) = ⊥
Codes (cons (seq c) codes) = ⊥

abbrev pub ResultCode : Option Yaml → Type 0
ResultCode none = Unit
ResultCode (some (seq codes)) = Codes codes
ResultCode (some (text c)) = Unit
ResultCode (some (int c)) = Unit
ResultCode (some v) = ⊥

abbrev pub RequestFields : Fields → Type 0
RequestFields request =
    AnyText (get "method" request)
    × FilledText (get "url" request)
    × MapOrAbsent (get "headers" request)

abbrev pub RequestOk : Option Yaml → Type 0
RequestOk none = Unit
RequestOk (some (map request)) = RequestFields request
RequestOk (some v) = ⊥

abbrev pub ResponseOk : Option Yaml → Type 0
ResponseOk none = Unit
ResponseOk (some (map response)) = ResultCode (get "result_code" response)
ResponseOk (some v) = ⊥

abbrev pub SectionFields : Fields → Type 0
SectionFields fields =
    FilledText (get "name" fields)
    × MapOrAbsent (get "env" fields)
    × RequestOk (get "request" fields)
    × ResponseOk (get "response" fields)
    × MapOrAbsent (get "find" fields)

abbrev pub UpOk : Option Yaml → Type 0
UpOk (some (map fields)) = SectionFields fields
UpOk o = ⊥

abbrev pub DownOk : Option Yaml → Type 0
DownOk none = Unit
DownOk (some (map fields)) = SectionFields fields
DownOk (some v) = ⊥

pub snoc-ne-nil : (xs : List Issue) (e : Issue) → snoc xs e ≢ []
snoc-ne-nil [] e h = cc
snoc-ne-nil (x ∷ xs) e h = cc

-- A step that adds an error ends all cleanness.
pub dirty :
    {P : Type 0} (e : Issue) (r : ValidationResult) → ¬ P → Clean (add_error e r) ↔ (Clean r × P)
dirty e r n = (λ h. absurd (snoc-ne-nil r.errors e h), λ h. absurd (n h.1))

pub clean : {P : Type 0} (r : ValidationResult) → P → Clean r ↔ (Clean r × P)
clean r p = (λ h. (h, p), λ h. h.0)
