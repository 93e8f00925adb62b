-- ===== src/Orchestrator/Graph/Reachable.antt =====
-- What GetAllDependents returns.
use apirun.Prelude.{
  ℕ, zero, suc, ◌+◌, ◌≤◌, ◌<◌, String, ◌≡◌, ◌↔◌, ◌⊎◌, refl, true, false, Bool, not, Bool-cases,
  Option-cases, Option, some, List, [], ◌∷◌, arith, elem, elem-snoc, elem-keys, keys, lookup,
  length, snoc, ◌==◌, eq_iff, inl, inr, sym, ◌∙◌, length-keys,
}
use apirun.Prelude.Ordered.{tally}
use apirun.Orchestrator.Graph.{DependencyGraph, edges_of}
use apirun.Orchestrator.Graph.Pending.{IsEdge}
use apirun.Orchestrator.Graph.Dependents.{Collected, collect_each, collect, get_all_dependents}

-- `b` depends on `a`, directly or through other stages.
pub data DependsOn (g : DependencyGraph) : String → String → Type 0 where
  direct : {a b : String} → IsEdge g a b → DependsOn g a b
  through : {a b c : String} → IsEdge g a b → DependsOn g b c → DependsOn g a c

module _ (g : DependencyGraph) where
  -- The stages that the search may still enter.
  abbrev unseen : Collected → ℕ
  unseen s = tally (λ k. not (elem k s.visited)) (keys g.edges)

  -- What a step of the search does to the collected names; those it adds to the result are `From`.
  record Grown (From : String → Type 0) (s s' : Collected) : Type 0 where
    visited : (a : String) → elem a s.visited ≡ true → elem a s'.visited ≡ true
    result : (a : String) → elem a s.result ≡ true → elem a s'.result ≡ true
    closed :
        (a b : String)
        → elem a s.visited ≡ false
        → elem a s'.visited ≡ true
        → IsEdge g a b
        → (elem b s'.result ≡ true) × (elem b s'.visited ≡ true)
    sound : (b : String) → elem b s.result ≡ false → elem b s'.result ≡ true → From b

  -- A call of `collect` returns.
  record Called (name : String) (s : Collected) (r : Option Collected) : Type 0 where
    state : Collected
    returns : r ≡ some state
    grown : Grown (DependsOn g name) s state
    entered : elem name state.visited ≡ true

  abbrev FromOne : List String → String → Type 0
  FromOne deps b = (d : String) × (elem d deps ≡ true) × ((d ≡ b) ⊎ DependsOn g d b)

  -- The loop over the dependents returns.
  record Looped (deps : List String) (s : Collected) (r : Option Collected) : Type 0 where
    state : Collected
    returns : r ≡ some state
    grown : Grown (FromOne deps) s state
    all :
        (d : String)
        → elem d deps ≡ true
        → (elem d state.result ≡ true) × (elem d state.visited ≡ true)

  tally-le :
      (p q : String → Bool) (xs : List String)
      → ((x : String) → q x ≡ true → p x ≡ true)
      → tally q xs ≤ tally p xs
  unfolding tally
  tally-le p q [] h = omega arith
  tally-le p q (x ∷ xs) h = ground (arith, h x, tally-le p q xs h)

  tally-lt :
      (p q : String → Bool) (y : String) (xs : List String)
      → ((x : String) → q x ≡ true → p x ≡ true)
      → elem y xs ≡ true
      → p y ≡ true
      → q y ≡ false
      → tally q xs < tally p xs
  unfolding tally elem
  tally-lt p q y [] h e py qy = cc
  tally-lt p q y (x ∷ xs) h e py qy = elim (Bool-cases (x == y)) [
    | inl same ↦
        let at_x : (p x ≡ true) × (q x ≡ false) = rw ((eq_iff x y).0 same) (py, qy) in
        ground (arith, tally-le p q xs h)
    | inr other ↦ ground (arith, h x, tally-lt p q y xs h)
  ]

  unseen-le :
      (s s' : Collected)
      → ((a : String) → elem a s.visited ≡ true → elem a s'.visited ≡ true)
      → unseen s' ≤ unseen s
  unseen-le s s' h = tally-le _ _ (keys g.edges) (λ x e. ground (arith, h x))

  module _ (fuel : ℕ)
      (call : (name : String) (s : Collected)
        → unseen s + 2 ≤ fuel
        → Called name s (collect fuel g name s)) where
    loop_returns :
        (deps : List String) (s : Collected)
        → (deps ≡ []) ⊎ (unseen s + 2 ≤ fuel)
        → Looped deps s (collect_each (collect fuel g) deps s)
    unfolding collect_each elem
    loop_returns [] s h = record {
      state = s;
      returns = refl;
      all = λ d e. cc;
      grown = record {
        visited = λ a e. e;
        result = λ a e. e;
        closed = λ a b e f. cc;
        sound = λ b e f. cc;
      };
    }
    loop_returns (dep ∷ deps) s h =
        let bound : unseen s + 2 ≤ fuel = elim h [ inl e ↦ cc | inr le ↦ le ] in
        let c = call dep (record s { result = snoc s.result dep }) bound in
        let r =
          loop_returns deps c.state
            (inr (omega (arith, bound, unseen-le s c.state c.grown.visited))) in
        record {
          state = r.state;
          returns = rw (c.returns, collect_each) r.returns;
          all = λ d e. elim (Bool-cases (dep == d)) [
            | inl same ↦ rw (sym ((eq_iff dep d).0 same)) (
              r.grown.result dep
                  (c.grown.result dep (ground (arith, elem-snoc dep dep s.result, eq_iff dep dep))),
              r.grown.visited dep c.entered,
            )
            | inr other ↦ r.all d (ground arith)
          ];
          grown = record {
            visited = λ a e. r.grown.visited a (c.grown.visited a e);
            result = λ a e.
                r.grown.result a (c.grown.result a (ground (arith, elem-snoc a dep s.result)));
            closed = λ a b e f edge. elim (Bool-cases (elem a c.state.visited)) [
              | inl now ↦
                  let (p, q) = c.grown.closed a b e now edge in
                  (r.grown.result b p, r.grown.visited b q)
              | inr later ↦ r.grown.closed a b later f edge
            ];
            sound = λ b e f. elim (Bool-cases (elem b c.state.result)) [
              | inr later ↦ let (d, i, x) = r.grown.sound b later f in (d, ground arith, x)
              | inl now ↦ elim (Bool-cases (elem b (snoc s.result dep))) [
                | inl here ↦
                    let same : (dep == b) ≡ true = ground (arith, elem-snoc b dep s.result) in
                    (dep, ground (arith, eq_iff dep dep), inl ((eq_iff dep b).0 same))
                | inr deep ↦ (dep, ground (arith, eq_iff dep dep), inr (c.grown.sound b deep now))
              ]
            ];
          };
        }

  enough :
      (fuel : ℕ) (name : String) (s : Collected)
      → elem name s.visited ≡ false
      → unseen s + 2 ≤ suc fuel
      → (edges_of g name ≡ []) ⊎ (unseen (record s { visited = snoc s.visited name }) + 2 ≤ fuel)
  unfolding edges_of
  enough fuel name s fresh h = elim (Option-cases (lookup name g.edges)) [
    | inl missing ↦ inl (rw (missing, edges_of) refl)
    | inr (deps, has) ↦
        let known : elem name (keys g.edges) ≡ true = elem-keys name g.edges ∙ rw has refl in
        let fewer =
          tally-lt (λ k. not (elem k s.visited)) (λ k. not (elem k (snoc s.visited name))) name
            (keys g.edges) (λ x e. ground (arith, elem-snoc x name s.visited)) known (ground arith)
            (ground (arith, elem-snoc name name s.visited, eq_iff name name)) in
        inr (omega (arith, fewer, h))
  ]

  collect_returns :
      (fuel : ℕ) (name : String) (s : Collected)
      → unseen s + 2 ≤ fuel
      → Called name s (collect fuel g name s)
  unfolding collect elem
  collect_returns zero name s h = absurd (omega arith)
  collect_returns (suc fuel) name s h = elim (Bool-cases (elem name s.visited)) [
    | inl known ↦
        rw (known, collect)
          (record {
            state = s;
            returns = refl;
            entered = known;
            grown = record {
              visited = λ a e. e;
              result = λ a e. e;
              closed = λ a b e f. cc;
              sound = λ b e f. cc;
            };
          })
    | inr fresh ↦
        let s₁ : Collected = record s { visited = snoc s.visited name } in
        let r =
          loop_returns fuel (collect_returns fuel) (edges_of g name) s₁
            (enough fuel name s fresh h) in
        let in₁ = λ (a : String). elem-snoc a name s.visited in
        rw (fresh, collect)
          (record {
            state = r.state;
            returns = r.returns;
            entered = r.grown.visited name (ground (arith, in₁ name, eq_iff name name));
            grown = record {
              visited = λ a e. r.grown.visited a (ground (arith, in₁ a));
              result = r.grown.result;
              closed = λ a b e f edge. elim (Bool-cases (name == a)) [
                | inl same ↦ r.all b (rw (sym ((eq_iff name a).0 same)) at edge)
                | inr other ↦ r.grown.closed a b (ground (arith, in₁ a)) f edge
              ];
              sound = λ b e f.
                  let (d, edge, x) = r.grown.sound b e f in
                  elim x [ inl same ↦ direct (rw same at edge) | inr on ↦ through edge on ];
            };
          })
  ]

  tally_le_length : (p : String → Bool) (xs : List String) → tally p xs ≤ length xs
  unfolding tally
  tally_le_length p [] = omega arith
  tally_le_length p (x ∷ xs) = ground (arith, tally_le_length p xs)

  reaches :
      (s : Collected) (a b : String)
      → ((x y : String)
          → elem x s.visited ≡ true
          → IsEdge g x y
          → (elem y s.result ≡ true) × (elem y s.visited ≡ true))
      → elem a s.visited ≡ true
      → DependsOn g a b
      → elem b s.result ≡ true
  reaches s a b closed e (direct edge) = (closed a b e edge).0
  reaches s a c closed e (through {b = b} edge on) = reaches s b c closed (closed a b e edge).1 on

  -- GetAllDependents returns, with the fuel it is given, and its result holds exactly the names of
  -- the stages that depend on the given one, directly or through others, whether the graph has
  -- cycles or not.
  pub get_all_dependents-DependsOn :
      (name : String)
      → (result : List String) × (get_all_dependents g name ≡ some result)
        × ((b : String) → (elem b result ≡ true) ↔ DependsOn g name b)
  unfolding get_all_dependents elem
  get_all_dependents-DependsOn name =
      let start : Collected = record { visited = []; result = [] } in
      let c = collect_returns (suc (suc (length g.edges))) name start (
        omega
          (arith, tally_le_length (λ k. not (elem k [])) (keys g.edges), length-keys g.edges)) in
      (
        c.state.result,
        rw (c.returns, get_all_dependents) refl,
        λ b. (
          c.grown.sound b refl,
          reaches c.state name b (λ x y e edge. c.grown.closed x y refl e edge) c.entered,
        ),
      )
