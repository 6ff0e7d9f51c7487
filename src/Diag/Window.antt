-- ===== src/Diag/Window.antt =====
-- The entries that main/diagnostics.c reads from its ring of sixteen, as a list.
use meb_commander.Base.{
  ℕ, zero, suc, ◌+◌, ◌%◌, ◌<◌, ◌≡◌, refl, ap, ◌∙◌, List, [], ◌∷◌, ◌++◌, arith, length, drop, get_or,
  set, get_or-set_self, get_or-set_ne,
}
use meb_commander.Diag.{DiagEvent, blank, copy_events}

pub length-copy_events : (b : List DiagEvent) (i n : ℕ) → length (copy_events b i n) ≡ n
unfolding copy_events
length-copy_events b i zero = refl
length-copy_events b i (suc n) = ap suc (length-copy_events b (i + 1) n)

-- Only the remainder of the first index counts.
pub copy_events-mod :
    (b : List DiagEvent) (i j n : ℕ) → i % 16 ≡ j % 16 → copy_events b i n ≡ copy_events b j n
unfolding copy_events
copy_events-mod b i j zero h = refl
copy_events-mod b i j (suc n) h = rw (h, copy_events-mod b (i + 1) (j + 1) n (omega arith))

-- One more index adds its entry at the end.
pub copy_events-suc :
    (b : List DiagEvent) (i n : ℕ)
    → copy_events b i (suc n) ≡ copy_events b i n ++ (get_or b ((i + n) % 16) blank ∷ [])
unfolding copy_events
copy_events-suc b i zero = ap (λ k. get_or b (k % 16) blank ∷ []) (omega arith)
copy_events-suc b i (suc n) =
    ap (λ t. get_or b (i % 16) blank ∷ t)
      (copy_events-suc b (i + 1) n
        ∙ ap (λ k. copy_events b (i + 1) n ++ (get_or b (k % 16) blank ∷ [])) (omega arith))

-- A write to an entry that is not read changes nothing.
pub copy_events-set :
    (b : List DiagEvent) (i n k : ℕ) (x : DiagEvent)
    → n < 16
    → (i + n) % 16 ≡ k
    → copy_events (set b k x) i n ≡ copy_events b i n
unfolding copy_events
copy_events-set b i zero k x h e = refl
copy_events-set b i (suc n) k x h e = rw (
  get_or-set_ne b k (i % 16) x blank (omega arith),
  copy_events-set b (i + 1) n k x (omega arith) (omega arith),
)

-- A write just past the entries read extends them.
pub copy_events-set_next :
    (b : List DiagEvent) (i n k : ℕ) (x : DiagEvent)
    → length b ≡ 16
    → n < 16
    → (i + n) % 16 ≡ k
    → copy_events (set b k x) i (suc n) ≡ copy_events b i n ++ (x ∷ [])
copy_events-set_next b i n k x l h e = rw (
  copy_events-suc (set b k x) i n,
  copy_events-set b i n k x h e,
  e,
  get_or-set_self b k x blank (omega arith),
)

-- The entries after the first.
pub drop-copy_events :
    (b : List DiagEvent) (i n : ℕ) → drop 1 (copy_events b i (suc n)) ≡ copy_events b (i + 1) n
unfolding copy_events
drop-copy_events b i n = refl
