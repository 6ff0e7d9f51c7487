-- ===== src/Rpc/Answers.antt =====
-- What main/serial_console.c replies: one whole line with the request's id.
use mathlib.Core.List.{append_assoc}
use Prim.Native.String.{String}
use meb_commander.Base.{
  ℕ, ◌+◌, ◌≡◌, ◌<◌, ◌≤◌, refl, ap, sym, ◌∙◌, Bool, true, false, List, [], ◌∷◌, ◌++◌, length,
  length-append, codes, arith, All, Bool-cases, inl, inr, leb,
}
use meb_commander.Base.Int.{ℤ}
use meb_commander.Base.Decimal.{decimal_ℤ, decimal_from}
use meb_commander.Rpc.{
  output_buf_size, result_buf_size, invalid_request, method_not_found, invalid_params, server_error,
  serial_printf, send_rpc_error, send_rpc_result,
}

-- A reply to the request `id`: a whole object on a line, not cut at the size of the output buffer.
pub record IsReply (id line : List ℕ) : Type 0 where
  pub body : List ℕ
  pub text : line ≡ codes "{\"jsonrpc\":\"2.0\",\"id\":" ++ (id ++ (body ++ codes "}\n"))
  pub room : length line < output_buf_size

-- What is printed in answer to a request: at most one reply, and one if the request has an id.
pub record Answers (has_id : Bool) (id : List ℕ) (lines : List (List ℕ)) : Type 0 where
  pub once : has_id ≡ true → length lines ≡ 1
  pub most : length lines ≤ 1
  pub whole : All (IsReply id) lines

single-Answers :
    (has_id : Bool) (id line : List ℕ) → IsReply id line → Answers has_id id (line ∷ [])
single-Answers has_id id line r = record { once = λ h. refl; most = omega arith; whole = (r, tt) }

lt→leb_false : (a b : ℕ) → a < b → leb b a ≡ false
lt→leb_false a b h = ground arith

serial_printf-whole : (text : List ℕ) → length text < output_buf_size → serial_printf text ≡ text
unfolding serial_printf
serial_printf-whole text h = rw (lt→leb_false (length text) output_buf_size h) refl

-- The text of a reply around its body.
envelope : List ℕ → List ℕ → List ℕ
envelope id body = codes "{\"jsonrpc\":\"2.0\",\"id\":" ++ (id ++ (body ++ codes "}\n"))

length-envelope : (id body : List ℕ) → length (envelope id body) ≡ 24 + length id + length body
unfolding envelope codes
length-envelope id body =
    omega (arith, length-append id (body ++ codes "}\n"), length-append body (codes "}\n"))

envelope-Answers :
    (has_id : Bool) (id body : List ℕ)
    → length id ≤ 63
    → length body ≤ 1900
    → Answers has_id id (serial_printf (envelope id body) ∷ [])
unfolding envelope
envelope-Answers has_id id body h k =
    let short : length (envelope id body) < output_buf_size =
      omega (arith, length-envelope id body) in
    rw (serial_printf-whole (envelope id body) short) (
      single-Answers has_id id (envelope id body)
        (record { body = body; text = refl; room = short }))

error_body : List ℕ → List ℕ → List ℕ
error_body code message =
    codes ",\"error\":{\"code\":" ++ (code ++ (codes ",\"message\":\"" ++ (message ++ codes "\"}")))

regroup_error :
    (a b c d e f : List ℕ) → a ++ (b ++ (c ++ (d ++ (e ++ f)))) ≡ (a ++ (b ++ (c ++ (d ++ e)))) ++ f
regroup_error a b c d e f =
    ap (λ (v : List ℕ). a ++ (b ++ (c ++ v))) (sym (append_assoc d e f))
    ∙ ap (λ (v : List ℕ). a ++ (b ++ v)) (sym (append_assoc c (d ++ e) f))
    ∙ ap (λ (v : List ℕ). a ++ v) (sym (append_assoc b (c ++ (d ++ e)) f))
    ∙ sym (append_assoc a (b ++ (c ++ (d ++ e))) f)

send_rpc_error-envelope :
    (id : List ℕ) (code : ℤ) (message : String)
    → send_rpc_error id code message
      ≡ serial_printf (envelope id (error_body (decimal_ℤ code) (codes message))) ∷ []
unfolding send_rpc_error envelope error_body codes
send_rpc_error-envelope id code message =
    ap (λ (v : List ℕ). serial_printf (codes "{\"jsonrpc\":\"2.0\",\"id\":" ++ (id ++ v)) ∷ [])
      (regroup_error (codes ",\"error\":{\"code\":") (decimal_ℤ code) (codes ",\"message\":\"")
        (codes message) (codes "\"}") (codes "}\n"))

length-error_body :
    (code message : List ℕ) → length (error_body code message) ≡ 31 + length code + length message
unfolding error_body codes
length-error_body code message = omega (
  arith,
  length-append code (codes ",\"message\":\"" ++ (message ++ codes "\"}")),
  length-append (codes ",\"message\":\"") (message ++ codes "\"}"),
  length-append message (codes "\"}"),
)

pub send_rpc_error-Answers :
    (has_id : Bool) (id : List ℕ) (code : ℤ) (message : String)
    → length id ≤ 63
    → length (decimal_ℤ code) ≤ 8
    → length (codes message) ≤ 256
    → Answers has_id id (send_rpc_error id code message)
send_rpc_error-Answers has_id id code message h k l = rw (send_rpc_error-envelope id code message) (
    envelope-Answers has_id id (error_body (decimal_ℤ code) (codes message)) h
      (omega (arith, length-error_body (decimal_ℤ code) (codes message))))

result_body : List ℕ → List ℕ
result_body result = codes ",\"result\":" ++ result

-- A result that the buffer takes.
send_rpc_result-envelope :
    (id result : List ℕ)
    → length result < result_buf_size
    → send_rpc_result true id result ≡ serial_printf (envelope id (result_body result)) ∷ []
unfolding send_rpc_result envelope result_body codes
send_rpc_result-envelope id result h = rw (lt→leb_false (length result) result_buf_size h) (
    ap (λ (v : List ℕ). serial_printf (codes "{\"jsonrpc\":\"2.0\",\"id\":" ++ (id ++ v)) ∷ [])
      (sym (append_assoc (codes ",\"result\":") result (codes "}\n"))))

-- The codes that are used have at most eight chars.
pub length-decimal_ℤ :
    (length (decimal_ℤ invalid_request) ≤ 8)
    × (length (decimal_ℤ method_not_found) ≤ 8)
    × (length (decimal_ℤ invalid_params) ≤ 8)
    × (length (decimal_ℤ server_error) ≤ 8)
unfolding decimal_ℤ decimal_from
length-decimal_ℤ = (omega arith, omega arith, omega arith, omega arith)

pub send_rpc_result-Answers :
    (has_id : Bool) (id result : List ℕ)
    → length id ≤ 63
    → Answers has_id id (send_rpc_result has_id id result)
unfolding send_rpc_result result_body codes
send_rpc_result-Answers false id result h = record {
  once = λ e. absurd (ground arith);
  most = omega arith;
  whole = tt;
}
send_rpc_result-Answers true id result h = elim (Bool-cases (leb result_buf_size (length result))) [
  | inl large ↦ rw large (
      send_rpc_error-Answers true id invalid_request "Response too large" h length-decimal_ℤ.0
        (omega arith))
  | inr fits ↦
      rw (send_rpc_result-envelope id result (ground (arith, fits)))
        (envelope-Answers true id (result_body result) h (ground (arith, fits)))
]
