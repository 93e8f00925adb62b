-- ===== src/Migration/UpLoop.antt =====
-- What the loop of MigrateUp leaves, whether it succeeds or fails.
use apirun.Prelude.{
  String, ◌≡◌, ◌⊎◌, refl, Bool, Option, none, some, List, [], ◌∷◌, ◌++◌, ℤ, ok, err, Map,
  if◌then◌else◌, snoc, Option-cases, inl, inr, ◌∙◌, sym, ap, insert_all, map, subst,
}
use mathlib.Core.List.{append_assoc, append-nil}
use apirun.Env.{Env}
use apirun.Store.{World, StoreError, apply}
use apirun.Migration.Types.{
  VersionFile, Migrator, Task, Event, ExecWithVersion, executed_up, Session, MigrateError, Outside,
  Migrated,
}
use apirun.Migration.Planning.{get_delay_between_migrations}
use apirun.Migration.TaskEnv.{render_body}
use apirun.Migration.Up.{execution_error, run_up_for_file, finish_version, up_loop}
use apirun.Migration.UpSteps.{
  add_version, settle, run_up_versions, run_up_cases, finish_trace, finish_cases,
}

-- A file loads, and its execution behind the executions `trace` answers no error.
pub record Passed (o : Outside) (default : Option Bool) (trace : List Event) (f : VersionFile)
    : Type 0 where
  pub task : Task
  pub env : Env
  pub loaded : o.load f ≡ ok task
  pub passed : (o.execute_up trace task env (render_body task.up_render_body default)).1 ≡ none

-- A file does not load, or its execution answers an error, or the store refuses to record it.
abbrev pub Fails : Outside → Option Bool → List Event → VersionFile → Type 0
Fails o default trace f =
    ((x : String) × (o.load f ≡ err x))
    ⊎ (((t : Task) × (env : Env) × (x : String) × (o.load f ≡ ok t)
          × ((o.execute_up trace t env (render_body t.up_render_body default)).1 ≡ some x))
        ⊎ ((x : StoreError) × (w : World) × ((apply o.config f.index w).0 ≡ err x)))

-- The executions behind those of `done`.
abbrev pub behind : List Event → List VersionFile → List Event
behind trace [] = trace
behind trace (f ∷ done) = behind (snoc trace (executed_up f.index)) done

abbrev pub AllPassed : Outside → Option Bool → List Event → List VersionFile → Type 0
AllPassed o default trace [] = Unit
AllPassed o default trace (f ∷ done) =
    Passed o default trace f × AllPassed o default (snoc trace (executed_up f.index)) done

-- Why a run ends with an error: its wait was interrupted, or the next file fails.
abbrev pub Stops :
    Outside → Option Bool → ℤ → List Event → List VersionFile → List VersionFile → Type 0
Stops o default delay trace done rest =
    ((x : String) × (o.sleep (behind trace done) delay ≡ some x))
    ⊎ ((f : VersionFile) × (later : List VersionFile) × (rest ≡ f ∷ later)
        × Fails o default (behind trace done) f)

-- The run finished the files `done` of its plan, which are all of them when there is no error, and
-- executed these and perhaps the next one; recorded are the versions of the files that it finished.
-- Every finished file passed, and an error has a reason outside.
pub record Progress (o : Outside) (m : Migrator) (plan : List VersionFile) (s : Session)
    (r : Migrated) : Type 0 where
  pub done : List VersionFile
  pub rest : List VersionFile
  pub split : plan ≡ done ++ rest
  pub versions : r.after.world.db.versions ≡ settle m.dry_run done s.world.db.versions
  pub executed : List VersionFile
  pub trace : r.after.trace ≡ s.trace ++ map (λ f. executed_up f.index) executed
  pub attempts :
      (executed ≡ done)
      ⊎ ((f : VersionFile) × (later : List VersionFile) × (rest ≡ f ∷ later)
          × (executed ≡ snoc done f))
  pub passed : AllPassed o m.render_body_default s.trace done
  pub complete : r.error ≡ none → rest ≡ []
  pub stopped :
      (e : MigrateError)
      → r.error ≡ some e
      → Stops o m.render_body_default (get_delay_between_migrations m) s.trace done rest

module _ (o : Outside) where
  -- A run that ends at its first file.
  Fails-Progress :
      (m : Migrator) (f : VersionFile) (plan executed : List VersionFile) (s : Session)
      (r : Migrated) (x : MigrateError)
      → r.error ≡ some x
      → r.after.world.db.versions ≡ s.world.db.versions
      → r.after.trace ≡ s.trace ++ map (λ f. executed_up f.index) executed
      → (executed ≡ []) ⊎ (executed ≡ f ∷ [])
      → Fails o m.render_body_default s.trace f
      → Progress o m (f ∷ plan) s r
  unfolding settle
  Fails-Progress m f plan executed s r x failed kept t ran why = record {
    done = [];
    rest = f ∷ plan;
    split = refl;
    versions = kept;
    executed = executed;
    trace = t;
    attempts = elim ran [ inl none_ran ↦ inl none_ran | inr one ↦ inr (f, plan, refl, one) ];
    passed = tt;
    complete = λ n. cc;
    stopped = λ e n. inr (f, plan, refl, why);
  }

  -- A file that is finished, in front of a run that goes on.
  Passed-Progress :
      (m : Migrator) (f : VersionFile) (plan : List VersionFile) (s s' : Session) (r : Migrated)
      → Passed o m.render_body_default s.trace f
      → s'.trace ≡ snoc s.trace (executed_up f.index)
      → s'.world.db.versions
        ≡ (if m.dry_run then s.world.db.versions else add_version f.index s.world.db.versions)
      → Progress o m plan s' r
      → Progress o m (f ∷ plan) s r
  unfolding settle
  Passed-Progress m f plan s s' r pass t settled d = record {
    done = f ∷ d.done;
    rest = d.rest;
    split = ap (λ l. f ∷ l) d.split;
    versions = d.versions ∙ ap (settle m.dry_run d.done) settled;
    executed = f ∷ d.executed;
    trace =
        d.trace
        ∙ ap (λ l. l ++ map (λ f. executed_up f.index) d.executed) t
        ∙ append_assoc s.trace _ _;
    attempts = elim d.attempts [
      | inl e ↦ inl (ap (λ l. f ∷ l) e)
      | inr (g, later, e, k) ↦ inr (g, later, e, ap (λ l. f ∷ l) k)
    ];
    passed = (pass, subst (λ tr. AllPassed o m.render_body_default tr d.done) t d.passed);
    complete = d.complete;
    stopped = λ e n.
        subst
          (λ tr. Stops o m.render_body_default (get_delay_between_migrations m) tr d.done d.rest) t
          (d.stopped e n);
  }

  -- A run that is interrupted before its first file.
  interrupted-Progress :
      (m : Migrator) (plan : List VersionFile) (s : Session) (r : Migrated) (x : MigrateError)
      (woken : String)
      → r.error ≡ some x
      → r.after.world.db.versions ≡ s.world.db.versions
      → r.after.trace ≡ s.trace
      → o.sleep s.trace (get_delay_between_migrations m) ≡ some woken
      → Progress o m plan s r
  unfolding settle
  interrupted-Progress m plan s r x woken failed kept t slept = record {
    done = [];
    rest = plan;
    split = refl;
    versions = kept;
    executed = [];
    trace = t ∙ sym (append-nil s.trace);
    attempts = inl refl;
    passed = tt;
    complete = λ n. cc;
    stopped = λ e n. inl (woken, slept);
  }

  -- The rest of the loop, once the first file has been executed without an error.
  abbrev Continues : Migrator → List VersionFile → Type 0
  Continues m plan =
      (session_stored : Map String) (results : List (Option ExecWithVersion)) (s : Session)
      → Progress o m plan s (up_loop o m plan session_stored results s)

  finished-Progress :
      (m : Migrator) (f : VersionFile) (plan : List VersionFile) (session_stored : Map String)
      (results : List (Option ExecWithVersion)) (s : Session)
      → Continues m plan
      → (run_up_for_file o m f session_stored s).error ≡ none
      → (run_up_for_file o m f session_stored s).after.trace ≡ snoc s.trace (executed_up f.index)
      → Passed o m.render_body_default s.trace f
      → Progress o m (f ∷ plan) s (up_loop o m (f ∷ plan) session_stored results s)
  unfolding up_loop
  finished-Progress m f plan session_stored results s goes_on good ran pass =
      let run = run_up_for_file o m f session_stored s in
      let finished = finish_version o m f.index run.after in
      let kept = run_up_versions o m f session_stored s in
      let t : finished.1.trace ≡ snoc s.trace (executed_up f.index) =
        finish_trace o m f.index run.after ∙ ran in
      elim (finish_cases o m f.index run.after) [
        | inr (x, refused, failed, v) ↦
            rw (good, failed, up_loop)
              (Fails-Progress m f plan (f ∷ []) s _ _ refl (v ∙ kept) t (inr refl)
                (inr (inr (x, run.after.world, refused))))
        | inl (v, wait) ↦
            let settled : finished.1.world.db.versions ≡ (
                if m.dry_run
                then s.world.db.versions
                else add_version f.index s.world.db.versions) =
              v ∙ ap (λ vs. if m.dry_run then vs else add_version f.index vs) kept in
            elim wait [
              | inr (x, slept, failed) ↦
                  rw (good, failed, up_loop)
                    (Passed-Progress m f plan s finished.1 _ pass t settled (
                      interrupted-Progress m plan finished.1 _ _ x refl refl refl (
                        subst (λ tr. o.sleep tr (get_delay_between_migrations m) ≡ some x)
                          (sym (finish_trace o m f.index run.after)) slept)))
              | inl continued ↦
                  rw (good, continued, up_loop)
                    (Passed-Progress m f plan s finished.1 _ pass t settled (
                      goes_on (insert_all run.to_store session_stored) (snoc results run.result)
                        finished.1))
            ]
      ]

  pub up_loop-Progress :
      (m : Migrator) (plan : List VersionFile) (session_stored : Map String)
      (results : List (Option ExecWithVersion)) (s : Session)
      → Progress o m plan s (up_loop o m plan session_stored results s)
  unfolding up_loop settle
  up_loop-Progress m [] session_stored results s = record {
    done = [];
    rest = [];
    split = refl;
    versions = refl;
    executed = [];
    trace = sym (append-nil s.trace);
    attempts = inl refl;
    passed = tt;
    complete = λ e. refl;
    stopped = λ e n. cc;
  }
  up_loop-Progress m (f ∷ plan) session_stored results s =
      let kept = run_up_versions o m f session_stored s in
      elim (run_up_cases o m f session_stored s) [
        | inl (x, unloaded, failed, t) ↦
            rw (failed, up_loop)
              (Fails-Progress m f plan [] s _ _ refl kept (t ∙ sym (append-nil s.trace)) (inl refl)
                (inl (x, unloaded)))
        | inr (task, env, loaded, error, ran) ↦
            elim (Option-cases
              (o.execute_up s.trace task env
                (render_body task.up_render_body m.render_body_default)).1) [
                  | inr (x, answered) ↦
                      let failed = error ∙ ap (execution_error f.index) answered in
                      rw (failed, up_loop)
                        (Fails-Progress m f plan (f ∷ []) s _ _ refl kept ran (inr refl)
                          (inr (inl (task, env, x, loaded, answered))))
                  | inl answered ↦
                      finished-Progress m f plan session_stored results s (up_loop-Progress m plan)
                        (error ∙ ap (execution_error f.index) answered) ran
                        (record { task = task; env = env; loaded = loaded; passed = answered })
                ]
      ]
