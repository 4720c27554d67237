-- ===== src/Action/Validity.antt =====
-- What validation lets through, and the way of a signature from `Sign` to `Verify`.
use crypto_agent.Prelude.{
  ℕ, ◌≤◌, ◌≡◌, ◌≢◌, refl, ◌↔◌, ◌⊎◌, true, false, arith, [], ◌∷◌, Bytes, length, All, ok,
}
use crypto_agent.Action.{Action, is_upper_hex, is_hex, all_hex, any_upper, validate}

-- A digit of lower-case hexadecimal.
abbrev pub IsLowerHex : ℕ → Type 0
IsLowerHex c = ((b'0' ≤ c) × (c ≤ b'9')) ⊎ ((b'a' ≤ c) × (c ≤ b'f'))

pub record IsValid (a : Action) : Type 0 where
  pub version : a.schema_version ≡ 1
  pub has_agent : length a.agent_id ≢ 0
  pub has_type : length a.action_type ≢ 0
  pub has_target : length a.target ≢ 0
  pub nonce_length : length a.nonce ≡ 32
  pub nonce_digits : All IsLowerHex a.nonce

digit→ : (c : ℕ) → is_hex c ≡ true → is_upper_hex c ≡ false → IsLowerHex c
unfolding is_hex is_upper_hex
digit→ c h u = ground arith

digits→ : (s : Bytes) → all_hex s ≡ true → any_upper s ≡ false → All IsLowerHex s
unfolding all_hex any_upper
digits→ [] h u = tt
digits→ (c ∷ s) h u =
    (digit→ c (ground arith) (ground arith), digits→ s (ground arith) (ground arith))

→digit : (c : ℕ) → IsLowerHex c → (is_hex c ≡ true) × (is_upper_hex c ≡ false)
unfolding is_hex is_upper_hex
→digit c h = ground arith

→digits : (s : Bytes) → All IsLowerHex s → (all_hex s ≡ true) × (any_upper s ≡ false)
unfolding all_hex any_upper
→digits [] h = (refl, refl)
→digits (c ∷ s) (hc, hs) =
    let (a, b) = →digit c hc in let (p, q) = →digits s hs in (ground arith, ground arith)

-- Validation succeeds exactly if the version is 1, no text field is empty, and the nonce is 32
-- lower-case hexadecimal digits.
pub validate-ok_iff : (a : Action) → (validate a ≡ ok tt) ↔ IsValid a
unfolding validate
validate-ok_iff a = (
  λ e.
      let h : all_hex a.nonce ≡ true = ground arith in
      let u : any_upper a.nonce ≡ false = ground arith in
      record {
        version = ground arith;
        has_agent = ground arith;
        has_type = ground arith;
        has_target = ground arith;
        nonce_length = ground arith;
        nonce_digits = digits→ a.nonce h u;
      },
  λ v.
      let (h, u) = →digits a.nonce v.nonce_digits in
      let version = v.version in
      let has_agent = v.has_agent in
      let has_type = v.has_type in
      let has_target = v.has_target in let nonce_length = v.nonce_length in ground arith,
)
