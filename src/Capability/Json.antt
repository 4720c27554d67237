-- ===== src/Capability/Json.antt =====
-- The bytes of `Canonical` (go-key-service/internal/capability/token.go): the encoder that it calls on the
-- sorted token, with the keys in their order and without the newline. The copy of an empty list is Go's
-- nil slice, which is written `null`.
use mathlib.Core.List.{append_cancel_left, Perm}
use crypto_agent.Prelude.{◌^◌, All, ◌<◌, ◌≡◌, sym, ap, ◌∙◌, [], ◌∷◌, ◌++◌, Bytes, text}
use crypto_agent.Prelude.Json.{quote, format_int, print_strings}
use crypto_agent.Prelude.Json.Prefix.{IsUtf8, quote-prefix, format_int-comma, print_strings-prefix}
use crypto_agent.Prelude.Sorting.{sort_strings-inj, All-sort_strings}
use crypto_agent.Capability.{Token, Service, sorted, canonical}

-- the object of a token from a key on
abbrev from_token_id : Token → Bytes
from_token_id t = text ",\"token_id\":" ++ quote t.token_id ++ b'}' ∷ []

abbrev from_targets : Token → Bytes
from_targets t = text "\"targets\":" ++ print_strings t.targets ++ from_token_id t

abbrev from_issued_at : Token → Bytes
from_issued_at t = text "\"issued_at\":" ++ format_int t.issued_at ++ b',' ∷ from_targets t

abbrev from_expires_at : Token → Bytes
from_expires_at t = text ",\"expires_at\":" ++ format_int t.expires_at ++ b',' ∷ from_issued_at t

abbrev from_agent_id : Token → Bytes
from_agent_id t = text ",\"agent_id\":" ++ quote t.agent_id ++ from_expires_at t

unfoldable pub encode : Token → Bytes
encode t = text "{\"action_types\":" ++ print_strings t.action_types ++ from_agent_id t

-- The times of a token are int64 patterns, and its strings are valid UTF-8.
pub record IsEncodable (t : Token) : Type 0 where
  pub start_word : t.issued_at < 2 ^ 64
  pub end_word : t.expires_at < 2 ^ 64
  pub token_id_utf8 : IsUtf8 t.token_id
  pub agent_id_utf8 : IsUtf8 t.agent_id
  pub action_types_utf8 : All IsUtf8 t.action_types
  pub targets_utf8 : All IsUtf8 t.targets

sorted-IsEncodable : (t : Token) → IsEncodable t → IsEncodable (sorted t)
sorted-IsEncodable t h = record {
  start_word = h.start_word;
  end_word = h.end_word;
  token_id_utf8 = h.token_id_utf8;
  agent_id_utf8 = h.agent_id_utf8;
  action_types_utf8 = All-sort_strings IsUtf8 t.action_types h.action_types_utf8;
  targets_utf8 = All-sort_strings IsUtf8 t.targets h.targets_utf8;
}

token_eq :
    (t u : Token)
    → t.token_id ≡ u.token_id
    → t.agent_id ≡ u.agent_id
    → t.action_types ≡ u.action_types
    → t.targets ≡ u.targets
    → t.issued_at ≡ u.issued_at
    → t.expires_at ≡ u.expires_at
    → t ≡ u
token_eq t u n a k g i e = λ j. record {
  token_id = n j;
  agent_id = a j;
  action_types = k j;
  targets = g j;
  issued_at = i j;
  expires_at = e j;
}

-- Tokens that are written alike are alike.
encode-inj : (t u : Token) → IsEncodable t → IsEncodable u → encode t ≡ encode u → t ≡ u
unfolding encode
encode-inj t u ht hu e =
    let (types, e1) =
      print_strings-prefix t.action_types u.action_types (from_agent_id t) (from_agent_id u)
        ht.action_types_utf8 hu.action_types_utf8
        (append_cancel_left (text "{\"action_types\":")
          (print_strings t.action_types ++ from_agent_id t)
          (print_strings u.action_types ++ from_agent_id u) e) in
    let (agents, e2) =
      quote-prefix t.agent_id u.agent_id (from_expires_at t) (from_expires_at u) ht.agent_id_utf8
        hu.agent_id_utf8
        (append_cancel_left (text ",\"agent_id\":") (quote t.agent_id ++ from_expires_at t)
          (quote u.agent_id ++ from_expires_at u) e1) in
    let (ends, e3) =
      format_int-comma t.expires_at u.expires_at (from_issued_at t) (from_issued_at u) ht.end_word
        hu.end_word
        (append_cancel_left (text ",\"expires_at\":")
          (format_int t.expires_at ++ b',' ∷ from_issued_at t)
          (format_int u.expires_at ++ b',' ∷ from_issued_at u) e2) in
    let (starts, e4) =
      format_int-comma t.issued_at u.issued_at (from_targets t) (from_targets u) ht.start_word
        hu.start_word
        (append_cancel_left (text "\"issued_at\":")
          (format_int t.issued_at ++ b',' ∷ from_targets t)
          (format_int u.issued_at ++ b',' ∷ from_targets u) e3) in
    let (targets, e5) =
      print_strings-prefix t.targets u.targets (from_token_id t) (from_token_id u) ht.targets_utf8
        hu.targets_utf8
        (append_cancel_left (text "\"targets\":") (print_strings t.targets ++ from_token_id t)
          (print_strings u.targets ++ from_token_id u) e4) in
    let (ids, _) =
      quote-prefix t.token_id u.token_id (b'}' ∷ []) (b'}' ∷ []) ht.token_id_utf8 hu.token_id_utf8 (
        append_cancel_left (text ",\"token_id\":") (quote t.token_id ++ b'}' ∷ [])
          (quote u.token_id ++ b'}' ∷ []) e5) in
    token_eq t u ids agents types targets starts ends

-- Two tokens that differ at most in the order of the actions and of the targets that they list.
abbrev pub AreAlike : Token → Token → Type 0
AreAlike t u =
    (t.token_id ≡ u.token_id)
    × (t.agent_id ≡ u.agent_id)
    × Perm t.action_types u.action_types
    × Perm t.targets u.targets
    × (t.issued_at ≡ u.issued_at)
    × (t.expires_at ≡ u.expires_at)

-- Where the service signs the bytes above, two tokens with one canonical form, whose times are int64
-- patterns and whose strings are valid UTF-8, have the same id, agent and times, and their lists of
-- actions and of targets are permutations of each other.
pub canonical-inj :
    (svc : Service) (t u : Token)
    → svc.codec.encode ≡ encode
    → IsEncodable t
    → IsEncodable u
    → canonical svc t ≡ canonical svc u
    → AreAlike t u
unfolding canonical
canonical-inj svc t u codec ht hu e =
    let same : sorted t ≡ sorted u =
      encode-inj (sorted t) (sorted u) (sorted-IsEncodable t ht) (sorted-IsEncodable u hu) (
        ap (λ (f : Token → Bytes). f (sorted t)) (sym codec)
        ∙ e
        ∙ ap (λ (f : Token → Bytes). f (sorted u)) codec) in
    (
      ap (λ v. v.token_id) same,
      ap (λ v. v.agent_id) same,
      sort_strings-inj t.action_types u.action_types (ap (λ v. v.action_types) same),
      sort_strings-inj t.targets u.targets (ap (λ v. v.targets) same),
      ap (λ v. v.issued_at) same,
      ap (λ v. v.expires_at) same,
    )
