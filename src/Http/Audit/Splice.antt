-- ===== src/Http/Audit/Splice.antt =====
-- The text of the append endpoint's answer (`appendResponse.MarshalJSON` of
-- go-key-service/internal/auditlog/http/handler.go), which is cut open and closed again.
use crypto_agent.Prelude.{
  ℕ, ◌-◌, Bool, true, false, not, ◌||◌, Option, none, some, List, [], ◌∷◌, ◌++◌, Bytes, text,
  length, take, ltb, ◌==◌, if◌then◌else◌, ◌≡◌, refl, ap, ◌∙◌, arith, length-append, take-append,
  take-length,
}
use mathlib.Core.List.{append_assoc}
use crypto_agent.Prelude.Json.{quote, escape, escape_char}

unfoldable pub print_bool : Bool → Bytes
print_bool true = text "true"
print_bool false = text "false"

-- whether a text's last byte is this one
unfoldable pub ends_with : ℕ → Bytes → Bool
ends_with c [] = false
ends_with c (x ∷ []) = x == c
ends_with c (x ∷ y ∷ s) = ends_with c (y ∷ s)

-- `,"idempotent":%t}` in place of the closing brace; `none` is the error of a text that is no object
unfoldable pub splice : Bytes → Bool → Option Bytes
unfolding print_bool ends_with
splice b is_idempotent =
    if ltb (length b) 2 || not (ends_with b'}' b)
    then none
    else some
        (take (length b - 1) b ++ text ",\"idempotent\":" ++ print_bool is_idempotent ++ b'}' ∷ [])

-- An object's text: the names with the texts of their values.
unfoldable pub print_fields : List (Bytes × Bytes) → Bytes
print_fields [] = []
print_fields ((name, value) ∷ fields) = b',' ∷ (quote name ++ b':' ∷ (value ++ print_fields fields))

unfoldable pub print_object : List (Bytes × Bytes) → Bytes
unfolding print_fields
print_object [] = text "{}"
print_object ((name, value) ∷ fields) =
    b'{' ∷ (quote name ++ b':' ∷ (value ++ print_fields fields ++ (b'}' ∷ [])))

ends_with-snoc : (c : ℕ) (s : Bytes) → ends_with c (s ++ (c ∷ [])) ≡ true
unfolding ends_with
ends_with-snoc c [] = ground arith
ends_with-snoc c (x ∷ []) = ground arith
ends_with-snoc c (x ∷ y ∷ s) = ends_with-snoc c (y ∷ s)

take-snoc : (s : Bytes) (c : ℕ) → take (length (s ++ (c ∷ [])) - 1) (s ++ (c ∷ [])) ≡ s
take-snoc s c =
    ap (λ n. take n (s ++ (c ∷ []))) (omega (arith, length-append s (c ∷ [])))
    ∙ take-append (length s) s (c ∷ []) (omega arith)
    ∙ take-length (length s) s (omega arith)

splice-brace :
    (x : ℕ) (front : Bytes) (b : Bool)
    → splice (x ∷ (front ++ (b'}' ∷ []))) b
      ≡ some (x ∷ (front ++ text ",\"idempotent\":" ++ print_bool b ++ b'}' ∷ []))
unfolding splice
splice-brace x front b =
    let whole : Bytes = x ∷ (front ++ (b'}' ∷ [])) in
    let long : ltb (length whole) 2 ≡ false = ground (arith, length-append front (b'}' ∷ [])) in
    rw (splice, long, ends_with-snoc b'}' (x ∷ front), take-snoc (x ∷ front) b'}') refl

print_fields-snoc :
    (fields : List (Bytes × Bytes)) (name value rest : Bytes)
    → print_fields (fields ++ ((name, value) ∷ [])) ++ rest
      ≡ print_fields fields ++ b',' ∷ (quote name ++ b':' ∷ (value ++ rest))
unfolding print_fields
print_fields-snoc [] name value rest = simp append_assoc
print_fields-snoc ((n, v) ∷ fields) name value rest =
    simp (append_assoc, print_fields-snoc fields name value rest)

-- Cutting the answer open gives what the encoder would have written for the event's object with one field
-- more: `idempotent`, behind the event's fields. The event has a field, as every event does.
pub splice-print_object :
    (name value : Bytes) (fields : List (Bytes × Bytes)) (is_idempotent : Bool)
    → splice (print_object ((name, value) ∷ fields)) is_idempotent
      ≡ some (
          print_object
            ((name, value) ∷ fields ++ ((text "idempotent", print_bool is_idempotent) ∷ [])))
unfolding print_object quote escape escape_char
splice-print_object name value fields b =
    let front : Bytes = quote name ++ b':' ∷ (value ++ print_fields fields) in
    ap (λ t. splice (b'{' ∷ t) b) (simp append_assoc)
    ∙ splice-brace b'{' front b
    ∙ ap (λ t. some (b'{' ∷ t)) (simp (append_assoc, print_fields-snoc fields))
