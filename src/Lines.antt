-- ===== src/Lines.antt =====
-- The line assembler that `uart_command_task` of main/serial_console.c and `feed_rx_bytes` of
-- main/ble_console.c both have, over what they do with a line: the two differ in that alone.
use mathlib.Core.List.{append-nil, append_assoc}
use meb_commander.Base.{
  ℕ, ◌+◌, ◌-◌, ◌≡◌, ◌<◌, ◌≤◌, ◌∙◌, refl, ap, sym, Bool, false, ◌||◌, List, [], ◌∷◌, ◌++◌, arith,
  ltb, ◌==◌, if◌then◌else◌, length, All, length-append, if-elim,
}

abbrev pub is_newline : ℕ → Bool
is_newline c = c == 10 || c == 13

-- The bytes of an array up to its first zero byte, which a C string function sees.
unfoldable pub c_string : List ℕ → List ℕ
c_string [] = []
c_string (c ∷ text) = let rest = c_string text in if c == 0 then [] else c ∷ rest

module _ {ℓ} {S : Type ℓ} (complete overlong : List ℕ → S → S) where
  -- One byte with `line` collected so far in a buffer of `size` chars.
  unfoldable pub feed_byte : ℕ → ℕ → List ℕ × S → List ℕ × S
  feed_byte size c (line, s) =
      if is_newline c
      then (if ltb 0 (length line) then ([], complete line s) else (line, s))
      else if length line == 0
      then (if c == b'{' then (c ∷ [], s) else (line, s))
      else if ltb (length line) (size - 1)
      then (line ++ (c ∷ []), s)
      else ([], overlong line s)

  unfoldable pub feed_bytes : ℕ → List ℕ → List ℕ × S → List ℕ × S
  unfolding feed_byte
  feed_bytes size [] b = b
  feed_bytes size (c ∷ input) b = feed_bytes size input (feed_byte size c b)

  -- The bytes may come in any pieces.
  pub feed_bytes-append :
      (size : ℕ) (xs ys : List ℕ) (b : List ℕ × S)
      → feed_bytes size (xs ++ ys) b ≡ feed_bytes size ys (feed_bytes size xs b)
  unfolding feed_bytes
  feed_bytes-append size [] ys b = refl
  feed_bytes-append size (c ∷ xs) ys b = feed_bytes-append size xs ys (feed_byte size c b)

  -- What is collected fits the buffer with its terminating zero.
  feed_byte-fits :
      (size c : ℕ) (line : List ℕ) (s : S)
      → 2 ≤ size
      → length line < size
      → length (feed_byte size c (line, s)).0 < size
  unfolding feed_byte
  feed_byte-fits size c line s h k = ground (arith, length-append line (c ∷ []))

  pub feed_bytes-fits :
      (size : ℕ) (input line : List ℕ) (s : S)
      → 2 ≤ size
      → length line < size
      → length (feed_bytes size input (line, s)).0 < size
  unfolding feed_bytes
  feed_bytes-fits size [] line s h k = k
  feed_bytes-fits size (c ∷ input) line s h k =
      let (line', s') = feed_byte size c (line, s) in
      feed_bytes-fits size input line' s' h (feed_byte-fits size c line s h k)

  feed_byte-keeps {κ} :
      (Inv : S → Type κ) (size c : ℕ) (line : List ℕ) (s : S)
      → ((l : List ℕ) (t : S) → Inv t → Inv (complete l t))
      → ((l : List ℕ) (t : S) → Inv t → Inv (overlong l t))
      → Inv s
      → Inv (feed_byte size c (line, s)).1
  unfolding feed_byte
  feed_byte-keeps Inv size c line s f g v =
      let F : List ℕ × S → Type κ = λ b. Inv b.1 in
      if-elim F (is_newline c) (λ e. if-elim F (ltb 0 (length line)) (λ e'. f line s v) (λ e'. v))
        (λ e.
          if-elim F (length line == 0) (λ e'. if-elim F (c == b'{') (λ e''. v) (λ e''. v))
            (λ e'. if-elim F (ltb (length line) (size - 1)) (λ e''. v) (λ e''. g line s v)))

  -- What both uses of a line keep, any bytes keep.
  pub feed_bytes-keeps {κ} :
      (Inv : S → Type κ) (size : ℕ) (input line : List ℕ) (s : S)
      → ((l : List ℕ) (t : S) → Inv t → Inv (complete l t))
      → ((l : List ℕ) (t : S) → Inv t → Inv (overlong l t))
      → Inv s
      → Inv (feed_bytes size input (line, s)).1
  unfolding feed_bytes
  feed_bytes-keeps Inv size [] line s f g v = v
  feed_bytes-keeps Inv size (c ∷ input) line s f g v =
      let (line', s') = feed_byte size c (line, s) in
      feed_bytes-keeps Inv size input line' s' f g (feed_byte-keeps Inv size c line s f g v)

  -- A byte that does not end a line.
  abbrev pub IsInner : ℕ → Type 0
  IsInner c = is_newline c ≡ false

  -- The bytes of a line, as far as they fit, are collected.
  feed_bytes-collects :
      (size : ℕ) (first : ℕ) (line text : List ℕ) (s : S)
      → All IsInner text
      → length (first ∷ line) + length text < size
      → feed_bytes size text (first ∷ line, s) ≡ ((first ∷ line) ++ text, s)
  unfolding feed_bytes feed_byte
  feed_bytes-collects size first line [] s a h =
      ap (λ (l : List ℕ). (l, s)) (sym (append-nil (first ∷ line)))
  feed_bytes-collects size first line (c ∷ text) s (inner, a) h =
      let longer = line ++ (c ∷ []) in
      let step : feed_byte size c (first ∷ line, s) ≡ (first ∷ longer, s) = ground (arith, inner) in
      ap (λ (b : List ℕ × S). feed_bytes size text b) step
      ∙ feed_bytes-collects size first longer text s a (omega (arith, length-append line (c ∷ [])))
      ∙ ap (λ (l : List ℕ). (first ∷ l, s)) (append_assoc line (c ∷ []) text)

  -- A line is `{` and what follows it, up to its newline; it fits with its terminating zero.
  abbrev pub IsLine : ℕ → List ℕ → Type 0
  IsLine size text = All IsInner text × (1 + length text < size)

  -- Lines as a host sends them.
  unfoldable pub lines : List (List ℕ) → List ℕ
  lines [] = []
  lines (text ∷ texts) = (b'{' ∷ text) ++ (10 ∷ lines texts)

  unfoldable pub complete_all : List (List ℕ) → S → S
  complete_all [] s = s
  complete_all (text ∷ texts) s = complete_all texts (complete (b'{' ∷ text) s)

  feed_bytes-line :
      (size : ℕ) (text : List ℕ) (s : S)
      → IsLine size text
      → feed_bytes size ((b'{' ∷ text) ++ (10 ∷ [])) ([], s) ≡ ([], complete (b'{' ∷ text) s)
  unfolding feed_bytes feed_byte
  feed_bytes-line size text s (a, h) =
      feed_bytes-append size (b'{' ∷ text) (10 ∷ []) ([], s)
      ∙ ap (λ (b : List ℕ × S). feed_bytes size (10 ∷ []) b) collected
      ∙ ended
    where
      collected : feed_bytes size (b'{' ∷ text) ([], s) ≡ (b'{' ∷ text, s)
      collected = feed_bytes-collects size b'{' [] text s a (omega (arith, h))

      ended : feed_bytes size (10 ∷ []) (b'{' ∷ text, s) ≡ ([], complete (b'{' ∷ text) s)
      ended = ground arith

  -- Lines that fit come out whole and in order.
  pub feed_bytes-lines :
      (size : ℕ) (texts : List (List ℕ)) (s : S)
      → All (IsLine size) texts
      → feed_bytes size (lines texts) ([], s) ≡ ([], complete_all texts s)
  unfolding lines complete_all feed_bytes
  feed_bytes-lines size [] s h = refl
  feed_bytes-lines size (text ∷ texts) s (h, more) =
      ap (λ (v : List ℕ). feed_bytes size v ([], s))
        (sym (append_assoc (b'{' ∷ text) (10 ∷ []) (lines texts)))
      ∙ feed_bytes-append size ((b'{' ∷ text) ++ (10 ∷ [])) (lines texts) ([], s)
      ∙ ap (λ (b : List ℕ × S). feed_bytes size (lines texts) b) (feed_bytes-line size text s h)
      ∙ feed_bytes-lines size texts (complete (b'{' ∷ text) s) more
