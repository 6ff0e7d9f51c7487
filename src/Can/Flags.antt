-- ===== src/Can/Flags.antt =====
-- The text of the error flags in main/can_bus.c, `append_flag_name` and `format_error_flags`.
use meb_commander.Base.{
  ℕ, ◌-◌, ◌/◌, ◌%◌, ◌^◌, ◌≡◌, refl, Bool, true, false, List, [], ◌∷◌, ◌++◌, ltb, leb, ◌==◌,
  if◌then◌else◌, length, take, codes, arith, bytes_eq, bytes_eq→eq, ◌&&◌, ◌≢◌, ◌⊎◌,
}

-- The text in the buffer of `buf_len` chars, at whose end `pos` stands, after the name is appended.
unfoldable pub append_flag_name : ℕ → List ℕ → List ℕ → List ℕ
append_flag_name buf_len name text =
    if leb (buf_len - 1) (length text)
    then text
    else take (buf_len - 1) (text ++ (if ltb 0 (length text) then b'|' ∷ name else name))

-- `flags & BIT(n)`
abbrev pub has_bit : ℕ → ℕ → Bool
has_bit n flags = flags / 2 ^ n % 2 == 1

-- One `if` of `format_error_flags`.
unfoldable pub append_if : Bool → ℕ → List ℕ → List ℕ → List ℕ
unfolding append_flag_name
append_if set buf_len name text = if set then append_flag_name buf_len name text else text

-- The five `if`s, given what they test.
unfoldable pub append_names : ℕ → Bool → Bool → Bool → Bool → Bool → List ℕ
unfolding append_if codes
append_names buf_len arb bit form stuff ack = append_if ack buf_len (codes "ack") (
    append_if stuff buf_len (codes "stuff") (
      append_if form buf_len (codes "form")
        (append_if bit buf_len (codes "bit") (append_if arb buf_len (codes "arb") []))))

unfoldable pub format_error_flags : ℕ → ℕ → List ℕ
unfolding append_names
format_error_flags flags buf_len =
    let names =
      append_names buf_len (has_bit 0 flags) (has_bit 1 flags) (has_bit 2 flags) (has_bit 3 flags)
        (has_bit 4 flags) in
    if buf_len == 0
    then []
    else if flags == 0
    then take (buf_len - 1) (codes "unknown")
    else if length names == 0
    then take (buf_len - 1) (codes "other")
    else names

-- The names of the flags that are set, in order, with a bar between each two.
abbrev pub joined : List (List ℕ) → List ℕ
joined [] = []
joined (name ∷ []) = name
joined (name ∷ (more ∷ names)) = name ++ (b'|' ∷ joined (more ∷ names))

abbrev pub chosen : Bool → List ℕ → List (List ℕ) → List (List ℕ)
chosen true name names = name ∷ names
chosen false name names = names

abbrev pub names : Bool → Bool → Bool → Bool → Bool → List (List ℕ)
names arb bit form stuff ack = chosen arb (codes "arb") (
    chosen bit (codes "bit")
      (chosen form (codes "form") (chosen stuff (codes "stuff") (chosen ack (codes "ack") []))))

-- A test of a Boolean that holds for both.
for_both : (Bool → Bool) → Bool
for_both test = test true && test false

for_both_sound : (test : Bool → Bool) → for_both test ≡ true → (b : Bool) → test b ≡ true
unfolding for_both
for_both_sound test h true = ground arith
for_both_sound test h false = ground arith

names_table :
    for_both (λ a. for_both (λ b. for_both (λ c.
      for_both
        (λ d. for_both (λ e. bytes_eq (append_names 24 a b c d e) (joined (names a b c d e)))))))
    ≡ true
unfolding for_both append_names append_if append_flag_name codes bytes_eq
names_table = refl

append_names-names :
    (arb bit form stuff ack : Bool)
    → append_names 24 arb bit form stuff ack ≡ joined (names arb bit form stuff ack)
append_names-names arb bit form stuff ack = bytes_eq→eq _ _ (
    for_both_sound _
      (for_both_sound _
        (for_both_sound _ (for_both_sound _ (for_both_sound _ names_table arb) bit) form) stuff)
      ack)

-- Whatever the flags are, the buffer of 24 chars takes the names of all that are set among the five,
-- in order and with a bar between each two; with none of the five set it says that the flags are
-- unknown or other.
pub format_error_flags-names :
    (flags : ℕ)
    → let set = joined (
        names
          (has_bit 0 flags)
          (has_bit 1 flags)
          (has_bit 2 flags)
          (has_bit 3 flags)
          (has_bit 4 flags)) in
      ((set ≢ []) × (format_error_flags flags 24 ≡ set))
      ⊎ ((set ≡ [])
          × (format_error_flags flags 24 ≡ (if flags == 0 then codes "unknown" else codes "other")))
unfolding format_error_flags codes
format_error_flags-names flags = go (
    append_names-names (has_bit 0 flags) (has_bit 1 flags) (has_bit 2 flags) (has_bit 3 flags)
      (has_bit 4 flags))
  where
    set : List ℕ
    set = joined (
        names (has_bit 0 flags) (has_bit 1 flags) (has_bit 2 flags) (has_bit 3 flags)
          (has_bit 4 flags))

    go :
        append_names 24
            (has_bit 0 flags)
            (has_bit 1 flags)
            (has_bit 2 flags)
            (has_bit 3 flags)
            (has_bit 4 flags)
          ≡ set
        → ((set ≢ []) × (format_error_flags flags 24 ≡ set))
          ⊎ ((set ≡ [])
              × (format_error_flags flags 24
                  ≡ (if flags == 0 then codes "unknown" else codes "other")))
    go e = ground arith
