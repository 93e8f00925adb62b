-- ===== src/Migration/DownRuns.antt =====
-- What a run of MigrateDown leaves, whether it succeeds or fails.
use apirun.Prelude.{
  ℕ, ◌≡◌, ◌⊎◌, refl, Bool, true, false, not, Option, none, some, List, [], ◌∷◌, ◌++◌, arith,
  if◌then◌else◌, any, eqb, keep, snoc, Option-cases, inl, inr, ◌∙◌, sym, ap, map, subst,
}
use mathlib.Core.List.{append_assoc, append-nil}
use apirun.Migration.Types.{
  VersionFile, Migrator, ExecWithVersion, Event, executed_down, Session, MigrateError, Outside,
  Migrated,
}
use apirun.Migration.Planning.{file_of_version}
use apirun.Migration.Down.{run_down_for_version, down_loop}
use apirun.Migration.DownSteps.{RolledBack, FailsDown, run_down_cases}

-- The recorded versions behind the rollback of the versions `done`.
unfoldable pub forget_all : Bool → List ℕ → List ℕ → List ℕ
forget_all dry_run done vs = if dry_run then vs else keep (λ u. not (any (eqb u) done)) vs

-- The executions behind those of `done`.
abbrev pub behind_down : List Event → List ℕ → List Event
behind_down trace [] = trace
behind_down trace (v ∷ done) = behind_down (snoc trace (executed_down v)) done

abbrev pub AllRolledBack : Outside → Option Bool → List VersionFile → List Event → List ℕ → Type 0
AllRolledBack o default files trace [] = Unit
AllRolledBack o default files trace (v ∷ done) =
    RolledBack o default files trace v
    × AllRolledBack o default files (snoc trace (executed_down v)) done

abbrev pub StopsDown :
    Outside → Option Bool → List VersionFile → List Event → List ℕ → List ℕ → Type 0
StopsDown o default files trace done rest =
    (v : ℕ) × (later : List ℕ) × (rest ≡ v ∷ later)
    × FailsDown o default files (behind_down trace done) v

-- The run rolled back the versions `done`, which are all of the list when there is no error, and
-- executed these and perhaps the next one; exactly these are recorded no more. The execution of each
-- of them answered no error, and an error of the run is the failure of the next one.
pub record Rollback (o : Outside) (m : Migrator) (files : List VersionFile) (versions : List ℕ)
    (s : Session) (r : Migrated) : Type 0 where
  pub done : List ℕ
  pub rest : List ℕ
  pub split : versions ≡ done ++ rest
  pub recorded : r.after.world.db.versions ≡ forget_all m.dry_run done s.world.db.versions
  pub executed : List ℕ
  pub trace : r.after.trace ≡ s.trace ++ map executed_down executed
  pub attempts :
      (executed ≡ done)
      ⊎ ((v : ℕ) × (later : List ℕ) × (rest ≡ v ∷ later) × (executed ≡ snoc done v))
  pub passed : AllRolledBack o m.render_body_default files s.trace done
  pub complete : r.error ≡ none → rest ≡ []
  pub stopped :
      (e : MigrateError)
      → r.error ≡ some e
      → StopsDown o m.render_body_default files s.trace done rest

forget-nothing : (dry_run : Bool) (vs : List ℕ) → vs ≡ forget_all dry_run [] vs
unfolding forget_all keep any
forget-nothing true vs = refl
forget-nothing false [] = refl
forget-nothing false (v ∷ vs) = ap (λ l. v ∷ l) (forget-nothing false vs)

forget-cons :
    (dry_run : Bool) (v : ℕ) (done vs : List ℕ)
    → forget_all dry_run done (if dry_run then vs else keep (λ u. not (eqb u v)) vs)
      ≡ forget_all dry_run (v ∷ done) vs
unfolding forget_all keep any
forget-cons true v done vs = refl
forget-cons false v done [] = refl
forget-cons false v done (u ∷ vs) = ground (arith, forget-cons false v done vs)

module _ (o : Outside) where
  -- A run that ends at its first version.
  FailsDown-Rollback :
      (m : Migrator) (files : List VersionFile) (v : ℕ) (versions executed : List ℕ) (s : Session)
      (r : Migrated) (x : MigrateError)
      → r.error ≡ some x
      → r.after.world.db.versions ≡ s.world.db.versions
      → r.after.trace ≡ s.trace ++ map executed_down executed
      → (executed ≡ []) ⊎ (executed ≡ v ∷ [])
      → FailsDown o m.render_body_default files s.trace v
      → Rollback o m files (v ∷ versions) s r
  FailsDown-Rollback m files v versions executed s r x failed kept t ran why = record {
    done = [];
    rest = v ∷ versions;
    split = refl;
    recorded = kept ∙ forget-nothing m.dry_run _;
    executed = executed;
    trace = t;
    attempts = elim ran [ inl none_ran ↦ inl none_ran | inr one ↦ inr (v, versions, refl, one) ];
    passed = tt;
    complete = λ n. cc;
    stopped = λ e n. (v, versions, refl, why);
  }

  -- A version that is rolled back, in front of a run that goes on.
  RolledBack-Rollback :
      (m : Migrator) (files : List VersionFile) (v : ℕ) (versions : List ℕ) (s s' : Session)
      (r : Migrated)
      → RolledBack o m.render_body_default files s.trace v
      → s'.trace ≡ snoc s.trace (executed_down v)
      → s'.world.db.versions
        ≡ (if m.dry_run then s.world.db.versions else keep (λ u. not (eqb u v)) s.world.db.versions)
      → Rollback o m files versions s' r
      → Rollback o m files (v ∷ versions) s r
  RolledBack-Rollback m files v versions s s' r back t removed d = record {
    done = v ∷ d.done;
    rest = d.rest;
    split = ap (λ l. v ∷ l) d.split;
    recorded =
        d.recorded
        ∙ ap (forget_all m.dry_run d.done) removed
        ∙ forget-cons m.dry_run v d.done s.world.db.versions;
    executed = v ∷ d.executed;
    trace = d.trace ∙ ap (λ l. l ++ map executed_down d.executed) t ∙ append_assoc s.trace _ _;
    attempts = elim d.attempts [
      | inl e ↦ inl (ap (λ l. v ∷ l) e)
      | inr (u, later, e, k) ↦ inr (u, later, e, ap (λ l. v ∷ l) k)
    ];
    passed = (back, subst (λ tr. AllRolledBack o m.render_body_default files tr d.done) t d.passed);
    complete = d.complete;
    stopped = λ e n.
        subst (λ tr. StopsDown o m.render_body_default files tr d.done d.rest) t (d.stopped e n);
  }

  pub down_loop-Rollback :
      (m : Migrator) (files : List VersionFile) (versions : List ℕ)
      (results : List (Option ExecWithVersion)) (s : Session)
      → Rollback o m files versions s (down_loop o m files versions results s)
  unfolding down_loop
  down_loop-Rollback m files [] results s = record {
    done = [];
    rest = [];
    split = refl;
    recorded = forget-nothing m.dry_run _;
    executed = [];
    trace = sym (append-nil s.trace);
    attempts = inl refl;
    passed = tt;
    complete = λ e. refl;
    stopped = λ e n. cc;
  }
  down_loop-Rollback m files (v ∷ versions) results s =
      elim (Option-cases (file_of_version files v)) [
        | inl missing ↦
            rw (missing, down_loop)
              (FailsDown-Rollback m files v versions [] s _ _ refl refl (sym (append-nil s.trace))
                (inl refl) (inl missing))
        | inr (f, has) ↦
            let run = run_down_for_version o m v f s in
            elim (run_down_cases o m files v f s has) [
              | inr (e, failed, inl t, d, why) ↦
                  rw (has, failed, down_loop)
                    (FailsDown-Rollback m files v versions [] s _ _ refl d
                      (t ∙ sym (append-nil s.trace)) (inl refl) why)
              | inr (e, failed, inr t, d, why) ↦
                  rw (has, failed, down_loop)
                    (FailsDown-Rollback m files v versions (v ∷ []) s _ _ refl d t (inr refl) why)
              | inl (good, t, d, back) ↦
                  rw (has, good, down_loop)
                    (RolledBack-Rollback m files v versions s run.after _ back t d
                      (down_loop-Rollback m files versions (snoc results run.result) run.after))
            ]
      ]
