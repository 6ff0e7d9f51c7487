-- ===== src/Ble/Peers.antt =====
-- The table of clients in main/ble_console.c as a map from connections to whether they want
-- notifications.
use meb_commander.Base.{
  ℕ, zero, suc, ◌≡◌, ◌≢◌, refl, ◌∙◌, Bool, true, false, List, [], ◌∷◌, Option, none, some, ◌==◌,
  if◌then◌else◌, get_or, set, arith, Bool-cases, inl, inr,
}
use meb_commander.Ble.{Peer, no_peer, is_peer, find_peer, claim_peer}

-- Whether the connection wants notifications; `none` where there is no such connection.
unfoldable pub lookup : ℕ → List Peer → Option Bool
lookup handle [] = none
lookup handle (p ∷ peers) =
    let later = lookup handle peers in if is_peer handle p then some p.notify_enabled else later

-- No connection has two entries.
abbrev pub IsUnique : List Peer → Type 0
IsUnique [] = Unit
IsUnique (p ∷ peers) = (p.in_use ≡ true → lookup p.conn_handle peers ≡ none) × IsUnique peers

abbrev pub has_free : List Peer → Bool
has_free [] = false
has_free (p ∷ peers) = let later = has_free peers in if p.in_use then later else true

pub find_peer-none : (h : ℕ) (peers : List Peer) → find_peer h peers ≡ none → lookup h peers ≡ none
unfolding find_peer lookup
find_peer-none h [] e = refl
find_peer-none h (p ∷ peers) e = ground (arith, find_peer-none h peers)

pub find_peer-some :
    (h i : ℕ) (peers : List Peer) → find_peer h peers ≡ some i → lookup h peers ≢ none
unfolding find_peer lookup
find_peer-some h i [] e = ground arith
find_peer-some h zero (p ∷ peers) e = ground (arith, find_peer-some h zero peers)
find_peer-some h (suc i) (p ∷ peers) e = ground (arith, find_peer-some h i peers)

pub lookup-claim_peer :
    (h k : ℕ) (peers : List Peer)
    → has_free peers ≡ true
    → lookup h peers ≡ none
    → lookup k (claim_peer h peers).1 ≡ (if k == h then some false else lookup k peers)
unfolding lookup claim_peer
lookup-claim_peer h k [] f e = ground arith
lookup-claim_peer h k (p ∷ peers) f e = ground (arith, lookup-claim_peer h k peers)

pub lookup-claim_peer_other :
    (h k : ℕ) (peers : List Peer) → k ≢ h → lookup k (claim_peer h peers).1 ≡ lookup k peers
unfolding lookup claim_peer
lookup-claim_peer_other h k [] d = refl
lookup-claim_peer_other h k (p ∷ peers) d = ground (arith, lookup-claim_peer_other h k peers)

pub IsUnique-claim_peer :
    (h : ℕ) (peers : List Peer)
    → lookup h peers ≡ none
    → IsUnique peers
    → IsUnique (claim_peer h peers).1
unfolding lookup claim_peer
IsUnique-claim_peer h [] e u = tt
IsUnique-claim_peer h (p ∷ peers) e u = elim (Bool-cases p.in_use) [
  | inr idle ↦ rw idle ((λ now. later_none), u.1)
  | inl busy ↦
      let other : p.conn_handle ≢ h = λ same. ground (arith, e, busy, same) in
      rw busy (
        (λ now. lookup-claim_peer_other h p.conn_handle peers other ∙ u.0 busy),
        IsUnique-claim_peer h peers later_none u.1,
      )
]
  where
    later_none : lookup h peers ≡ none
    later_none = ground (arith, e)

-- The first entry that is the connection's is replaced by `f` of it.
unfoldable pub alter : ℕ → (Peer → Peer) → List Peer → List Peer
alter h f [] = []
alter h f (p ∷ peers) =
    let later = p ∷ alter h f peers in if is_peer h p then f p ∷ peers else later

pub find_peer-alter :
    (h i : ℕ) (f : Peer → Peer) (peers : List Peer)
    → find_peer h peers ≡ some i
    → set peers i (f (get_or peers i no_peer)) ≡ alter h f peers
unfolding find_peer alter
find_peer-alter h i f [] e = ground arith
find_peer-alter h zero f (p ∷ peers) e = ground (arith, find_peer-alter h zero f peers)
find_peer-alter h (suc i) f (p ∷ peers) e = ground (arith, find_peer-alter h i f peers)

pub lookup-alter_clear :
    (h k : ℕ) (peers : List Peer)
    → IsUnique peers
    → lookup k (alter h (λ p. no_peer) peers) ≡ (if k == h then none else lookup k peers)
unfolding lookup alter
lookup-alter_clear h k [] u = ground arith
lookup-alter_clear h k (p ∷ peers) (u, v) = elim (Bool-cases p.in_use) [
  | inl busy ↦ ground (arith, busy, u busy, lookup-alter_clear h k peers v)
  | inr idle ↦ ground (arith, idle, lookup-alter_clear h k peers v)
]

-- The entry of a client that wants notifications or not.
abbrev pub notifying : Bool → Peer → Peer
notifying on p = record p { notify_enabled = on }

pub lookup-alter-notifying :
    (h k : ℕ) (on : Bool) (peers : List Peer)
    → lookup h peers ≢ none
    → lookup k (alter h (notifying on) peers) ≡ (if k == h then some on else lookup k peers)
unfolding lookup alter
lookup-alter-notifying h k on [] e = absurd (e refl)
lookup-alter-notifying h k on (p ∷ peers) e = elim (Bool-cases (is_peer h p)) [
  | inl here ↦ ground (arith, here)
  | inr later ↦
      let known : lookup h peers ≢ none = ground (arith, e, later) in
      ground (arith, later, lookup-alter-notifying h k on peers known)
]

-- A change of an entry keeps what other connections look up.
lookup-alter-none :
    (h k : ℕ) (f : Peer → Peer) (peers : List Peer)
    → ((p : Peer) → is_peer h p ≡ true → is_peer k p ≡ false → is_peer k (f p) ≡ false)
    → lookup k peers ≡ none
    → lookup k (alter h f peers) ≡ none
unfolding lookup alter
lookup-alter-none h k f [] kept e = refl
lookup-alter-none h k f (p ∷ peers) kept e = elim (Bool-cases (is_peer h p)) [
  | inl here ↦ ground (arith, here, e, kept p here)
  | inr later ↦ ground (arith, later, e, lookup-alter-none h k f peers kept)
]

pub IsUnique-alter_clear :
    (h : ℕ) (peers : List Peer) → IsUnique peers → IsUnique (alter h (λ p. no_peer) peers)
unfolding alter
IsUnique-alter_clear h [] u = tt
IsUnique-alter_clear h (p ∷ peers) (u, v) = elim (Bool-cases (is_peer h p)) [
  | inl here ↦ rw here ((λ busy. absurd (ground (arith, busy))), v)
  | inr later ↦ rw later (
    (λ busy.
        lookup-alter-none h p.conn_handle (λ q. no_peer) peers (λ q a b. ground arith) (u busy)),
    IsUnique-alter_clear h peers v,
  )
]

pub IsUnique-alter-notifying :
    (h : ℕ) (on : Bool) (peers : List Peer)
    → IsUnique peers
    → IsUnique (alter h (notifying on) peers)
unfolding alter
IsUnique-alter-notifying h on [] u = tt
IsUnique-alter-notifying h on (p ∷ peers) (u, v) = elim (Bool-cases (is_peer h p)) [
  | inl here ↦ rw here (u, v)
  | inr later ↦ rw later (
    (λ busy.
        lookup-alter-none h p.conn_handle (notifying on) peers (λ q a b. ground (arith, b))
          (u busy)),
    IsUnique-alter-notifying h on peers v,
  )
]

pub find_peer-claim_peer :
    (h : ℕ) (peers : List Peer)
    → lookup h peers ≡ none
    → find_peer h (claim_peer h peers).1 ≡ (claim_peer h peers).0
unfolding lookup claim_peer find_peer
find_peer-claim_peer h [] e = refl
find_peer-claim_peer h (p ∷ peers) e = ground (arith, find_peer-claim_peer h peers)
