-- ===== src/Rpc/Ids.antt =====
-- The ids of requests in main/serial_console.c fit their array, and the id that a reply carries.
use meb_commander.Base.{
  ℕ, zero, suc, ◌≡◌, ◌≢◌, ◌≤◌, refl, Bool, true, List, [], ◌∷◌, Option, none, some, if◌then◌else◌,
  given, length, codes, arith, if-elim, ◌==◌, given-cases,
}
use mathlib.Core.Path.{subst}
use meb_commander.Console.{find_key_value}
use meb_commander.Rpc.{
  id_buf_size, map_cons, quoted_id_from, plain_id_from, id_of_value, parse_id_token, ends_id, is_id,
}

-- A text, where there is one, has at most `n` bytes.
abbrev Fits : ℕ → Option (List ℕ) → Type 0
Fits n none = Unit
Fits n (some text) = length text ≤ n

Fits-map_cons : (n c : ℕ) (o : Option (List ℕ)) → Fits n o → Fits (suc n) (map_cons c o)
Fits-map_cons n c none h = tt
Fits-map_cons n c (some text) h = omega arith

quoted_id_from-Fits : (room : ℕ) (value : List ℕ) → Fits room (quoted_id_from room value)
unfolding quoted_id_from
quoted_id_from-Fits room [] = tt
quoted_id_from-Fits zero (c ∷ rest) = tt
quoted_id_from-Fits (suc room) (c ∷ []) =
    if-elim (Fits (suc room)) (c == b'"') (λ e. omega arith) (λ e. tt)
quoted_id_from-Fits (suc zero) (c ∷ (d ∷ rest)) =
    if-elim (Fits 1) (c == 92) (λ e. tt)
      (λ e. if-elim (Fits 1) (c == b'"') (λ q. omega arith) (λ q. tt))
quoted_id_from-Fits (suc (suc room)) (c ∷ (d ∷ rest)) =
    let plain =
      Fits-map_cons (suc room) c (quoted_id_from (suc room) (d ∷ rest))
        (quoted_id_from-Fits (suc room) (d ∷ rest)) in
    let escaped =
      Fits-map_cons (suc room) c (map_cons d (quoted_id_from room rest))
        (Fits-map_cons room d (quoted_id_from room rest) (quoted_id_from-Fits room rest)) in
    if-elim (Fits (suc (suc room))) (c == 92) (λ e. escaped)
      (λ e. if-elim (Fits (suc (suc room))) (c == b'"') (λ q. omega arith) (λ q. plain))

plain_id_from-Fits : (room : ℕ) (value : List ℕ) → Fits room (plain_id_from room value)
unfolding plain_id_from
plain_id_from-Fits room [] = omega arith
plain_id_from-Fits zero (c ∷ rest) = if-elim (Fits 0) (ends_id c) (λ e. omega arith) (λ e. tt)
plain_id_from-Fits (suc room) (c ∷ rest) =
    if-elim (Fits (suc room)) (ends_id c) (λ e. omega arith)
      (λ e. Fits-map_cons room c (plain_id_from room rest) (plain_id_from-Fits room rest))

id_of_value-Fits : (value : List ℕ) → Fits 63 (id_of_value value id_buf_size)
unfolding id_of_value
id_of_value-Fits [] = tt
id_of_value-Fits (c ∷ rest) =
    if-elim (Fits 63) (c == b'"')
      (λ e. Fits-map_cons 62 c (quoted_id_from 62 rest) (quoted_id_from-Fits 62 rest))
      (λ e. go (plain_id_from 63 (c ∷ rest)) (plain_id_from-Fits 63 (c ∷ rest)))
  where
    go :
        (o : Option (List ℕ))
        → Fits 63 o
        → Fits 63 (elim o [ none ↦ none | some token ↦ if is_id token then some token else none ])
    go none h = tt
    go (some token) h = if-elim (Fits 63) (is_id token) (λ e. h) (λ e. tt)

-- What `parse_id_token` finds fits its array, and tells whether there is a key `id`.
IsIdOf : List ℕ → Option (Bool × List ℕ) → Type 0
IsIdOf json none = Unit
IsIdOf json (some (has_id, token)) =
    (length token ≤ 63) × (find_key_value json (codes "id") ≢ none → has_id ≡ true)

parse_id_token-IsIdOf : (json : List ℕ) → IsIdOf json (parse_id_token json id_buf_size)
unfolding IsIdOf parse_id_token codes
parse_id_token-IsIdOf json =
    given-cases (IsIdOf json) (find_key_value json (codes "id"))
      (λ missing. (omega arith, (λ known. absurd (known missing))))
      (λ value found. go (id_of_value value id_buf_size) (id_of_value-Fits value))
  where
    go :
        (o : Option (List ℕ)) → Fits 63 o → IsIdOf json (given o none (λ token. some (true, token)))
    go none h = tt
    go (some token) h = (h, (λ known. refl))

pub parse_id_token-some :
    (json : List ℕ) (has_id : Bool) (token : List ℕ)
    → parse_id_token json id_buf_size ≡ some (has_id, token)
    → (length token ≤ 63) × (find_key_value json (codes "id") ≢ none → has_id ≡ true)
unfolding IsIdOf
parse_id_token-some json has_id token e = subst (IsIdOf json) e (parse_id_token-IsIdOf json)

-- The id that a reply carries: the command's, or null where that is none or cannot be read.
unfoldable pub reply_id : List ℕ → List ℕ
reply_id cmd =
    given (parse_id_token cmd id_buf_size) (codes "null") (λ (has_id, id_token). id_token)

pub reply_id-none :
    (cmd : List ℕ) → parse_id_token cmd id_buf_size ≡ none → reply_id cmd ≡ codes "null"
unfolding reply_id
reply_id-none cmd e = rw e refl

pub reply_id-some :
    (cmd : List ℕ) (id : Bool × List ℕ)
    → parse_id_token cmd id_buf_size ≡ some id
    → reply_id cmd ≡ id.1
unfolding reply_id
reply_id-some cmd id e = rw e refl
