-- ===== src/Startup/Ready.antt =====
-- What is there when `app_main` comes to its end.
use mathlib.Core.List.{append-nil, append_assoc}
use meb_commander.Base.{◌≡◌, sym, ◌∙◌, ap, true, List, [], ◌∷◌, ◌++◌, arith}
use meb_commander.Esp.{EspErr, esp_ok, is_ok, is_ok→eq, no_mem}
use meb_commander.Settings.{
  Nvs, Settings, init, note_init, read_interval, get_telemetry_interval_ms,
}
use meb_commander.Control.{Control, load_telemetry_interval_setting, use_loaded}
use meb_commander.Control.Interval.{IsValid, load-IsValid}
use meb_commander.Diag.Status.{ResetReason}
use meb_commander.Startup.{
  Chip, Build, Boot, Action, must, must_or, ignored, unless_installed, init_settings, load_interval,
  note, print, perform, create_mutex, diag,
}
use meb_commander.Startup.Runs.{run}
use meb_commander.Startup.Main.{app_main, boot_event}
use meb_commander.Startup.Script.{boot_script}
use meb_commander.Startup.Script.Functions.{app_main-Runs}
use meb_commander.Startup.Order.{perform-log}

-- The entries of actions that all succeed.
unfoldable pub succeeded : List Action → List (Action × EspErr)
succeeded [] = []
succeeded (a ∷ actions) = (a, esp_ok) ∷ succeeded actions

module _ (C : Chip) (N : Nvs) where
  perform-IsValid :
      (a : Action) (b : Boot C N) → IsValid N b.control → IsValid N (perform C N a b).1.control
  unfolding perform
  perform-IsValid (must c) b v = v
  perform-IsValid (must_or code c) b v = v
  perform-IsValid (ignored c) b v = v
  perform-IsValid (unless_installed c) b v = ground (arith, v)
  perform-IsValid init_settings b v = v
  perform-IsValid load_interval b v = load-IsValid N b.control v
  perform-IsValid (note event) b v = v
  perform-IsValid (print text) b v = v

  load_keeps :
      (c : Control N)
      → c.settings.initialized ≡ true
      → (load_telemetry_interval_setting N c).2.settings.initialized ≡ true
  unfolding load_telemetry_interval_setting use_loaded get_telemetry_interval_ms init read_interval
  load_keeps c up = ground (arith, up)

  perform_keeps :
      (a : Action) (b : Boot C N)
      → b.control.settings.initialized ≡ true
      → (perform C N a b).1.control.settings.initialized ≡ true
  unfolding perform init
  perform_keeps (must c) b up = up
  perform_keeps (must_or code c) b up = up
  perform_keeps (ignored c) b up = up
  perform_keeps (unless_installed c) b up = ground (arith, up)
  perform_keeps init_settings b up = ground (arith, up)
  perform_keeps load_interval b up = load_keeps b.control up
  perform_keeps (note event) b up = up
  perform_keeps (print text) b up = up

  init-initialized : (s : Settings N) → is_ok (init N s).0 ≡ true → (init N s).1.initialized ≡ true
  unfolding init note_init
  init-initialized s good = ground (arith, good)

  -- What an action that succeeds leaves up.
  perform_brings_up :
      (b : Boot C N)
      → is_ok (perform C N init_settings b).0 ≡ true
      → (perform C N init_settings b).1.control.settings.initialized ≡ true
  unfolding perform
  perform_brings_up b good = init-initialized b.control.settings good

  run-succeeded :
      (actions : List Action) (b : Boot C N)
      → is_ok (run C N actions b).0 ≡ true
      → (run C N actions b).1.log ≡ b.log ++ succeeded actions
  unfolding run succeeded
  run-succeeded [] b good = sym (append-nil b.log)
  run-succeeded (a ∷ actions) b good =
      let (e, b') = perform C N a b in
      let fine : is_ok e ≡ true = ground (arith, good) in
      let same : run C N (a ∷ actions) b ≡ run C N actions b' = ground (arith, fine) in
      ap (λ r. r.1.log) same
      ∙ run-succeeded actions b' (ap (λ r. is_ok r.0) (sym same) ∙ good)
      ∙ ap (λ l. l ++ succeeded actions) (perform-log C N a b)
      ∙ append_assoc b.log ((a, e) ∷ []) (succeeded actions)
      ∙ ap (λ r. b.log ++ ((a, r) ∷ succeeded actions)) (is_ok→eq e fine)

  run-IsValid :
      (actions : List Action) (b : Boot C N)
      → IsValid N b.control
      → IsValid N (run C N actions b).1.control
  unfolding run
  run-IsValid [] b v = v
  run-IsValid (a ∷ actions) b v =
      let b' = (perform C N a b).1 in
      let v' = perform-IsValid a b v in ground (arith, v', run-IsValid actions b' v')

  run_keeps :
      (actions : List Action) (b : Boot C N)
      → b.control.settings.initialized ≡ true
      → (run C N actions b).1.control.settings.initialized ≡ true
  unfolding run
  run_keeps [] b up = up
  run_keeps (a ∷ actions) b up =
      let b' = (perform C N a b).1 in
      let up' = perform_keeps a b up in ground (arith, up', run_keeps actions b' up')

  -- A run that succeeds and inits the settings on its way leaves them up.
  run-initialized :
      (before after : List Action) (b : Boot C N)
      → is_ok (run C N (before ++ (init_settings ∷ after)) b).0 ≡ true
      → (run C N (before ++ (init_settings ∷ after)) b).1.control.settings.initialized ≡ true
  unfolding run
  run-initialized [] after b good =
      let (e, b') = perform C N init_settings b in
      let fine : is_ok e ≡ true = ground (arith, good) in
      let same : run C N (init_settings ∷ after) b ≡ run C N after b' = ground (arith, fine) in
      rw same (run_keeps after b' (perform_brings_up b fine))
  run-initialized (a ∷ before) after b good =
      let (e, b') = perform C N a b in
      let rest = before ++ (init_settings ∷ after) in
      let fine : is_ok e ≡ true = ground (arith, good) in
      let same : run C N (a ∷ rest) b ≡ run C N rest b' = ground (arith, fine) in
      rw same (run-initialized before after b' (ap (λ r. is_ok r.0) (sym same) ∙ good))

  -- If `app_main` comes to its end, every action of its list was done once, in that order, with
  -- ESP_OK, the settings are initialized, and the telemetry interval in memory is between its bounds,
  -- where it was at boot.
  pub app_main-ready :
      (build : Build) (reason : ResetReason) (b : Boot C N)
      → is_ok (app_main C N build reason b).0 ≡ true
      → IsValid N b.control
      → let b' = (app_main C N build reason b).1 in
        (b'.log ≡ b.log ++ succeeded (boot_script C build reason))
        × (b'.control.settings.initialized ≡ true)
        × IsValid N b'.control
  unfolding boot_script
  app_main-ready build reason b good v =
      let actions = boot_script C build reason in
      let same = (app_main-Runs C N build reason).same b in
      let good' : is_ok (run C N actions b).0 ≡ true = ap (λ r. is_ok r.0) (sym same) ∙ good in
      rw same (
        run-succeeded actions b good',
        run-initialized (must_or no_mem (create_mutex diag) ∷ note (boot_event reason) ∷ []) _ b
            good',
        run-IsValid actions b v,
      )
