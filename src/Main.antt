-- ===== src/Main.antt =====
-- The process (cmd/upcloud-csi-plugin/main.go).
use upcloud_csi.Base.{
  ◌≡◌, ◌≢◌, ◌⊎◌, refl, ap, ◌∙◌, ltb, false, inl, inr, Bool-cases, ℕ, Bool, List, String,
  if◌then◌else◌,
}
use upcloud_csi.Go.{
  Action, Result, ok, err, panic, Error, help_requested, server_closed, is_error, pure, lift, ◌>>=◌,
}
use upcloud_csi.Logger.{Logger, new_logger, at_level, info_level}
use upcloud_csi.Plugin.Settings.{Config, parse}
use upcloud_csi.Plugin.Version.{print_version}
use upcloud_csi.Plugin.Start.{Process, run_plugin}

-- How the process ends: by `os.Exit`, with 1 for `log.Fatal`, or as `main` returns, which is status 0.
pub data Exit : Type 0 where
  exits : ℕ → Exit
  returns : Exit

abbrev pub status_of : Exit → ℕ
status_of (exits n) = n
status_of returns = 0

-- The flags, the environment, the arguments, and what is written to the standard output and error.
pub record Terminal (S : Type 0) : Type 0 where
  pub parse_flags : Config S → List String → Result (Config S)
  pub getenv : String → String
  pub os_args : List String
  pub print : String → S → S
  pub log_error : Logger → Error → S → S

module _ {S L : Type 0} (y : Terminal S) (p : Process S L) where
  -- An error that is not the one of a closed server is logged.
  unfoldable pub report : Config S → Result (Unit {0}) → Action S Exit
  unfolding new_logger
  report c (ok a) = pure returns
  report c panic = lift panic
  report c (err e) =
      if is_error e server_closed
      then pure returns
      else lift (new_logger p.parse_level c.log_level) >>= λ l s. (ok returns, y.log_error l e s)

  unfoldable pub start : Config S → Action S Exit
  unfolding print_version run_plugin report
  start c s =
      if c.print_version
      then (ok (exits 0), y.print (print_version p.around.build) s)
      else let (r, t) = run_plugin p c s in report c r t

  abbrev pub main_with : Result (Config S) → Action S Exit
  main_with (ok c) = start c
  main_with (err e) = pure (if is_error e help_requested then exits 0 else exits 1)
  main_with panic = lift panic

  unfoldable pub main : Action S Exit
  unfolding parse start
  main = main_with (parse y.parse_flags y.getenv y.os_args)

Result-cases :
    {A : Type 0} (r : Result A) → ((a : A) × (r ≡ ok a)) ⊎ ((e : Error) × (r ≡ err e)) ⊎ (r ≡ panic)
Result-cases (ok a) = inl (a, refl)
Result-cases (err e) = inr (inl (e, refl))
Result-cases panic = inr (inr refl)

-- A plugin whose logger cannot be made ends the process, so one that returned has a logger.
run_plugin-logger :
    {S L : Type 0} (p : Process S L) (c : Config S) (s : S)
    → (run_plugin p c s).0 ≢ panic
    → (l : Logger) × (new_logger p.parse_level c.log_level ≡ ok l)
unfolding run_plugin new_logger
run_plugin-logger p c s returned = elim (Result-cases (p.parse_level c.log_level)) [
  | inl (lv, e) ↦ (record { level = lv; warned = ltb info_level lv }, ap at_level e)
  | inr (inl (x, e)) ↦ absurd (returned (rw e refl))
  | inr (inr e) ↦ absurd (returned (rw e refl))
]

module _ {S L : Type 0} (y : Terminal S) (p : Process S L) where
  start-serves :
      (c : Config S) (s : S)
      → c.print_version ≡ false
      → start y p c s ≡ report y p c (run_plugin p c s).0 (run_plugin p c s).1
  unfolding start
  start-serves c s serves =
      ap
        (λ (b : Bool).
          if b
          then (ok (exits 0), y.print (print_version p.around.build) s)
          else report y p c (run_plugin p c s).0 (run_plugin p c s).1)
        serves

  report-ends :
      (c : Config S) (l : Logger)
      → new_logger p.parse_level c.log_level ≡ ok l
      → (r : Result (Unit {0})) (t : S) → r ≢ panic
      → (x : Exit) × ((report y p c r t).0 ≡ ok x) × (status_of x ≡ 0)
  unfolding report
  report-ends c l logs (ok a) t h = (returns, refl, refl)
  report-ends c l logs panic t h = absurd (h refl)
  report-ends c l logs (err e) t h = elim (Bool-cases (is_error e server_closed)) [
    | inl closed ↦ (returns, rw (report, closed) refl, refl)
    | inr other ↦ (returns, rw (report, other, logs) refl, refl)
  ]

  -- A process that is to serve, and whose `Run` comes to an end, ends with status 0, whatever the error
  -- that `Run` returned.
  pub main_hides_failure :
      (c : Config S) (s : S)
      → parse y.parse_flags y.getenv y.os_args ≡ ok c
      → c.print_version ≡ false
      → (run_plugin p c s).0 ≢ panic
      → (x : Exit) × ((main y p s).0 ≡ ok x) × (status_of x ≡ 0)
  unfolding main
  main_hides_failure c s parsed serves returned =
      let (l, logs) = run_plugin-logger p c s returned in
      let (x, e, zero) = report-ends c l logs (run_plugin p c s).0 (run_plugin p c s).1 returned in
      (
        x,
        ap (λ (r : Result (Config S)). (main_with y p r s).0) parsed
            ∙ ap (λ z. z.0) (start-serves c s serves)
            ∙ e,
        zero,
      )
