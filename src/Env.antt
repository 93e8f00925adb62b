-- ===== src/Env.antt =====
-- pkg/env/env.go: layered variables. A nil map is an empty one. The mutex is left out: every method
-- holds it from beginning to end, so the methods run one after another.
pub mod Layers
pub mod Render
use apirun.Prelude.{
  String, Bool, true, false, Option, none, some, List, [], ◌∷◌, Map, lookup, insert, ◌==◌, Result,
  ok, err, if◌then◌else◌,
}

-- A value is a text, or is computed by an auth provider when it is read; a computed value is named
-- by the provider's entry.
pub data Val : Type 0 where
  str : String → Val
  lazy : String → Val

pub record Env : Type 0 where
  pub auth : Map Val
  pub global : Map Val
  pub local : Map Val
  pub sealed : Bool

pub data EnvError : Type 0 where
  sealed_env : EnvError

-- New
abbrev pub new_env : Env
new_env = record { auth = []; global = []; local = []; sealed = false }

-- Seal and Unseal
unfoldable pub seal : Env → Env
seal e = record e { sealed = true }

unfoldable pub unseal : Env → Env
unseal e = record e { sealed = false }

-- Clone; a nil Env is `none`.
unfoldable pub clone : Option Env → Env
clone none = new_env
clone (some e) = record e { sealed = false }

-- FromStringMap
unfoldable pub from_string_map : Map String → Map Val
from_string_map [] = []
from_string_map ((k, v) ∷ m) = (k, str v) ∷ from_string_map m

-- The three maps.
pub data Layer : Type 0 where
  auth_layer global_layer local_layer : Layer

-- normalizeMapName, where `fold` is strings.ToLower behind strings.TrimSpace
unfoldable pub normalize_map_name : (String → String) → String → Layer
normalize_map_name fold n =
    if fold n == "auth" then auth_layer else if fold n == "local" then local_layer else global_layer

abbrev pub layer : Layer → Env → Map Val
layer auth_layer e = e.auth
layer global_layer e = e.global
layer local_layer e = e.local

abbrev pub set_layer : Layer → Map Val → Env → Env
set_layer auth_layer m e = record e { auth = m }
set_layer global_layer m e = record e { global = m }
set_layer local_layer m e = record e { local = m }

-- SetString
unfoldable pub set_string : Layer → String → String → Env → Result EnvError Env
set_string l key val e =
    if e.sealed then err sealed_env else ok (set_layer l (insert key (str val) (layer l e)) e)

-- Reading a value calls `String()` on it.
module _ (acquire : String → String) where
  abbrev pub string_of : Val → String
  string_of (str s) = s
  string_of (lazy name) = acquire name

  -- GetString
  unfoldable pub get_string : Layer → String → Env → String
  get_string l key e = elim (lookup key (layer l e)) [ none ↦ "" | some v ↦ string_of v ]

  -- Lookup
  unfoldable pub lookup_var : String → Env → Option String
  lookup_var key e = elim (lookup key e.local) [
    | some v ↦ some (string_of v)
    | none ↦ elim (lookup key e.global) [ some v ↦ some (string_of v) | none ↦ none ]
  ]

  -- m[k] = v.String() for each k, v of a layer
  unfoldable pub copy_strings : Map Val → Map String → Map String
  copy_strings [] m = m
  copy_strings ((k, v) ∷ n) m = copy_strings n (insert k (string_of v) m)

  -- merged
  unfoldable pub merged : Env → Map String
  merged e = copy_strings e.local (copy_strings e.global [])
