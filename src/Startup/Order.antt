-- ===== src/Startup/Order.antt =====
-- What holds of the order of the start: nothing follows a failure, and what is there when `app_main`
-- comes to its end.
use mathlib.Core.List.{append-nil, append_assoc}
use meb_commander.Base.{
  ◌≡◌, refl, sym, ◌∙◌, ap, List, [], ◌∷◌, ◌++◌, if◌then◌else◌, arith, inl, inr, Bool-cases,
}
use meb_commander.Esp.{EspErr, esp_ok, is_ok}
use meb_commander.Settings.{Nvs}
use meb_commander.Diag.Status.{ResetReason}
use meb_commander.Startup.{
  Chip, Build, Boot, Action, must, must_or, ignored, unless_installed, init_settings, load_interval,
  note, print, perform,
}
use meb_commander.Startup.Runs.{run}
use meb_commander.Startup.Main.{app_main}
use meb_commander.Startup.Script.{boot_script}
use meb_commander.Startup.Script.Functions.{app_main-Runs}

-- The entries are those of the actions, in order, each with ESP_OK; or the last of them is a failure,
-- whose error is the result, and none of the later actions is done.
unfoldable pub Follows : List Action → List (Action × EspErr) → EspErr → Type 0
Follows [] log r = (log ≡ []) × (r ≡ esp_ok)
Follows (a ∷ actions) [] r = ⊥
Follows (a ∷ actions) ((a', e) ∷ log) r =
    let rest = Follows actions log r in (a' ≡ a) × (if is_ok e then rest else (log ≡ []) × (r ≡ e))

module _ (C : Chip) (N : Nvs) where
  pub perform-log :
      (a : Action) (b : Boot C N)
      → (perform C N a b).1.log ≡ b.log ++ ((a, (perform C N a b).0) ∷ [])
  unfolding perform
  perform-log (must c) b = refl
  perform-log (must_or code c) b = refl
  perform-log (ignored c) b = refl
  perform-log (unless_installed c) b = ground arith
  perform-log init_settings b = refl
  perform-log load_interval b = refl
  perform-log (note event) b = refl
  perform-log (print text) b = refl

  run-Follows :
      (actions : List Action) (b : Boot C N)
      → (log : List (Action × EspErr)) × ((run C N actions b).1.log ≡ b.log ++ log)
        × Follows actions log (run C N actions b).0
  unfolding run Follows
  run-Follows [] b = ([], sym (append-nil b.log), (refl, refl))
  run-Follows (a ∷ actions) b =
      let (e, b') = perform C N a b in
      let logged = perform-log a b in
      elim (Bool-cases (is_ok e)) [
        | inl good ↦
            let same : run C N (a ∷ actions) b ≡ run C N actions b' = ground (arith, good) in
            let (log, grown, follows) = run-Follows actions b' in
            (
              (a, e) ∷ log,
              ap (λ r. r.1.log) same
                  ∙ grown
                  ∙ ap (λ l. l ++ log) logged
                  ∙ append_assoc b.log ((a, e) ∷ []) log,
              rw same (refl, rw good follows),
            )
        | inr bad ↦
            let same : run C N (a ∷ actions) b ≡ perform C N a b = ground (arith, bad) in
            ((a, e) ∷ [], ap (λ r. r.1.log) same ∙ logged, rw same (refl, rw bad (refl, refl)))
      ]

  -- The log of `app_main` follows the list of its actions, whatever the build, the chip and the
  -- storage do: each action is done once, in that order, with ESP_OK; or one of them fails, its error
  -- is the error of `app_main`, and nothing of what comes after it is done.
  pub app_main-Follows :
      (build : Build) (reason : ResetReason) (b : Boot C N)
      → (log : List (Action × EspErr)) × ((app_main C N build reason b).1.log ≡ b.log ++ log)
        × Follows (boot_script C build reason) log (app_main C N build reason b).0
  app_main-Follows build reason b =
      rw ((app_main-Runs C N build reason).same b) (run-Follows (boot_script C build reason) b)
