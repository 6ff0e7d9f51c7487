-- ===== src/Startup/Runs.antt =====
-- A function of the start that runs through a list of actions and stops at the first one that fails.
use meb_commander.Base.{
  ◌≡◌, refl, sym, ◌∙◌, ap, Bool, true, false, List, [], ◌∷◌, ◌++◌, if◌then◌else◌, arith,
}
use meb_commander.Esp.{EspErr, next, is_ok→eq}
use meb_commander.Settings.{Nvs}
use meb_commander.Startup.{Chip, Boot, Fallible, Action, ◌>>◌, done, perform}

module _ {W : Type 0} where
  next-done : (r : EspErr × W) → next r done ≡ r
  next-done (e, w) = ground (arith, is_ok→eq e)

  next-next : (r : EspErr × W) (f g : Fallible W) → next (next r f) g ≡ next r (λ w. next (f w) g)
  next-next (e, w) f g = ground arith

  next_same : (r : EspErr × W) {f g : Fallible W} → ((w : W) → f w ≡ g w) → next r f ≡ next r g
  next_same (e, w) same = ground (arith, same w)

module _ (C : Chip) (N : Nvs) where
  -- The actions of a list, up to the first that fails.
  unfoldable pub run : List Action → Fallible (Boot C N)
  run [] = done
  run (a ∷ actions) = perform C N a >> run actions

  -- A function of the start runs through the list.
  pub record Runs (actions : List Action) (m : Fallible (Boot C N)) : Type 0 where
    pub same : (b : Boot C N) → m b ≡ run actions b

module _ {C : Chip} {N : Nvs} where
  pub run-done : Runs C N [] done
  unfolding run
  run-done = record { same = λ b. refl }

  pub run-perform : {a : Action} → Runs C N (a ∷ []) (perform C N a)
  unfolding run
  run-perform {a} = record { same = λ b. sym (next-done (perform C N a b)) }

  run-append :
      (xs ys : List Action) (b : Boot C N) → run C N (xs ++ ys) b ≡ next (run C N xs b) (run C N ys)
  unfolding run
  run-append [] ys b = refl
  run-append (a ∷ xs) ys b =
      next_same (perform C N a b) (run-append xs ys)
      ∙ sym (next-next (perform C N a b) (run C N xs) (run C N ys))

  -- One function after another runs through one list after the other.
  infixr 5 ◌◂◌
  pub ◌◂◌ :
      {xs ys : List Action} {m k : Fallible (Boot C N)}
      → Runs C N xs m
      → Runs C N ys k
      → Runs C N (xs ++ ys) (m >> k)
  ◌◂◌ {xs} {ys} {m} {k} p q = record {
    same = λ b.
        next_same (m b) q.same
        ∙ ap (λ r. next r (run C N ys)) (p.same b)
        ∙ sym (run-append xs ys b);
  }

  pub run-if :
      {xs : List Action} {m : Fallible (Boot C N)} (condition : Bool)
      → Runs C N xs m
      → Runs C N (if condition then xs else []) (if condition then m else done)
  run-if true p = p
  run-if false p = run-done
