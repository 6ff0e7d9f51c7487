-- ===== src/Can/Pool/InUse.antt =====
-- Which slots are in use after one is written or released.
use meb_commander.Base.{
  ℕ, ◌≡◌, ◌<◌, false, List, length, set, get_or, arith, ◌==◌, ==_iff, if◌then◌else◌, Bool-cases,
  inl, inr, get_or-set_self, get_or-set_ne, length-set,
}
use meb_commander.Can.{TxSlot, empty_slot, release_at}

pub get_or-set_in_use :
    (slots : List TxSlot) (i k : ℕ) (slot : TxSlot)
    → i < length slots
    → (get_or (set slots i slot) k empty_slot).in_use
      ≡ (if k == i then slot.in_use else (get_or slots k empty_slot).in_use)
get_or-set_in_use slots i k slot h = elim (Bool-cases (k == i)) [
  | inl same ↦
      let e = (==_iff k i).0 same in
      rw e (ground (arith, get_or-set_self slots i slot empty_slot h))
  | inr other ↦ ground (arith, get_or-set_ne slots i k slot empty_slot (λ e. ground (arith, e)))
]

pub length-release_at : (slots : List TxSlot) (i : ℕ) → length (release_at i slots) ≡ length slots
unfolding release_at
length-release_at slots i =
    length-set slots i (record (get_or slots i empty_slot) { in_use = false })

-- Releasing a slot that was free before it was filled leaves every slot in use or not, as before.
pub get_or-release_at_in_use :
    (slots : List TxSlot) (i k : ℕ) (slot : TxSlot)
    → i < length slots
    → (get_or slots i empty_slot).in_use ≡ false
    → (get_or (release_at i (set slots i slot)) k empty_slot).in_use
      ≡ (get_or slots k empty_slot).in_use
unfolding release_at
get_or-release_at_in_use slots i k slot h idle = elim (Bool-cases (k == i)) [
  | inl same ↦ let e = (==_iff k i).0 same in rw e (ground (arith, released, idle))
  | inr other ↦ ground (arith, released, get_or-set_in_use slots i k slot h)
]
  where
    freed : TxSlot
    freed = record (get_or (set slots i slot) i empty_slot) { in_use = false }

    released :
        (get_or (set (set slots i slot) i freed) k empty_slot).in_use
        ≡ (if k == i then false else (get_or (set slots i slot) k empty_slot).in_use)
    released =
        get_or-set_in_use (set slots i slot) i k freed (omega (arith, length-set slots i slot))
