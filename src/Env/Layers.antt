-- ===== src/Env/Layers.antt =====
-- Which layer wins when a variable is looked up, and when the layers are merged.
use apirun.Prelude.{
  String, ◌≡◌, refl, false, Option, none, some, [], ◌∷◌, ◌==◌, eq_iff, Map, lookup, insert,
  lookup-insert, keys, elem, Distinct, arith, Option-cases, Bool-cases, inl, inr, ◌∙◌,
}
use apirun.Env.{Val, Env, string_of, lookup_var, copy_strings, merged}

module _ (acquire : String → String) where
  -- The text that a layer gives a name.
  abbrev pub text_of : Option Val → Option String
  text_of none = none
  text_of (some v) = some (string_of acquire v)

  abbrev pub or_text : Option String → Option String → Option String
  or_text none later = later
  or_text (some s) later = some s

  absent : (key : String) (m : Map Val) → elem key (keys m) ≡ false → lookup key m ≡ none
  unfolding lookup elem
  absent key [] e = refl
  absent key ((k, v) ∷ m) e = ground (arith, absent key m)

  lookup-copy_strings :
      (key : String) (layer : Map Val) (m : Map String)
      → Distinct (keys layer)
      → lookup key (copy_strings acquire layer m)
        ≡ or_text (text_of (lookup key layer)) (lookup key m)
  unfolding lookup copy_strings
  lookup-copy_strings key [] m d = refl
  lookup-copy_strings key ((k, v) ∷ layer) m d =
      let ih = lookup-copy_strings key layer (insert k (string_of acquire v) m) d.1 in
      let set = lookup-insert k key (string_of acquire v) m in
      elim (Bool-cases (k == key)) [
        | inl same ↦
            let none_later : lookup key layer ≡ none =
              absent key layer (rw ((eq_iff k key).0 same) at d.0) in
            ih ∙ rw (none_later, set, same) refl
        | inr other ↦ ih ∙ rw (set, other) refl
      ]

  -- The merged map that templates see holds, under each name, what Lookup answers for it: the local
  -- value of the name if there is one, or else the global one (the names of a layer are different,
  -- as the keys of a Go map are).
  pub lookup-merged :
      (e : Env)
      → Distinct (keys e.local)
      → Distinct (keys e.global)
      → (key : String) → lookup key (merged acquire e) ≡ lookup_var acquire key e
  unfolding merged lookup_var lookup
  lookup-merged e dl dg key =
      lookup-copy_strings key e.local (copy_strings acquire e.global []) dl
      ∙ elim (Option-cases (lookup key e.local)) [
        | inr (v, has) ↦ rw (has, lookup_var) refl
        | inl missing ↦
            rw (missing, lookup-copy_strings key e.global [] dg)
              (elim (Option-cases (lookup key e.global)) [
                | inl unset ↦ rw (missing, unset, lookup_var) refl
                | inr (v, set) ↦ rw (missing, set, lookup_var) refl
              ])
      ]
