-- ===== src/Security/Tokens.antt =====
-- Which bearer tokens a request may carry (app/security/sso.py).
use Prim.Native.Char.{Char, code}
use Prim.Native.String.{◌++◌ as join_text}
use Prim.Native.String.append.{nil as append-nil, cons as append-cons}
use office_mult_agent.Base.{
  String, true, false, some, ◌≤◌, ◌≡◌, ◌↔◌, inl, inr, refl, sym, ap, ◌∙◌, arith, ◌==◌, nat_eq,
  string_eq, ltb, ok, Bool-cases,
}
use office_mult_agent.Base.Text.{is_empty, is_space, lstrip, rstrip, strip}
use office_mult_agent.Files.{text_length}
use office_mult_agent.Security.{partition, has_blank, is_unusable, accept, extract_bearer_token}

-- Not empty, no more than 8192 characters, none of them a blank or a control character.
abbrev pub IsToken : String → Type 0
IsToken token = (is_empty token ≡ false) × (text_length token ≤ 8192) × (has_blank token ≡ false)

rstrip-id : (s : String) → has_blank s ≡ false → rstrip s ≡ s
unfolding has_blank rstrip
rstrip-id String.[] h = refl
rstrip-id (String.◌∷◌ c s) h = elim (Bool-cases (is_space c)) [
  | inl blank ↦ absurd (ground (arith, h, blank))
  | inr solid ↦
      let rest : rstrip s ≡ s = rstrip-id s (ground (arith, h, solid)) in
      ground (arith, rest, solid)
]

lstrip-id : (s : String) → has_blank s ≡ false → lstrip s ≡ s
unfolding has_blank lstrip
lstrip-id String.[] h = refl
lstrip-id (String.◌∷◌ c s) h = elim (Bool-cases (is_space c)) [
  | inl blank ↦ absurd (ground (arith, h, blank))
  | inr solid ↦ rw solid refl
]

strip-id : (s : String) → has_blank s ≡ false → strip s ≡ s
unfolding strip
strip-id s h = ap rstrip (lstrip-id s h) ∙ rstrip-id s h

not_space : (c : Char) → is_space c ≡ false → (code c == 32) ≡ false
unfolding is_space
not_space c solid = ground (arith, solid)

partition-blank :
    (scheme token : String)
    → has_blank scheme ≡ false
    → partition (join_text scheme (String.◌∷◌ " " token)) ≡ (scheme, true, token)
unfolding has_blank partition
partition-blank String.[] token h = rw (append-nil (String.◌∷◌ " " token)) refl
partition-blank (String.◌∷◌ c s) token h = elim (Bool-cases (is_space c)) [
  | inl blank ↦ absurd (ground (arith, h, blank))
  | inr solid ↦
      let other : (code c == 32) ≡ false = not_space c solid in
      let behind = partition-blank s token (ground (arith, h, solid)) in
      rw (append-cons c s (String.◌∷◌ " " token), other, behind) refl
]

module _ (lower : String → String) (scheme : String) (is_bearer : lower scheme ≡ "bearer")
    (is_word : has_blank scheme ≡ false) where
  -- A header of a scheme that spells "bearer" in any case and a text behind one blank is accepted with
  -- exactly this text if and only if the text is not empty, has no more than 8192 characters, and
  -- none of them is a blank or a control character.
  pub extract_bearer_token-IsToken :
      (token : String)
      → (extract_bearer_token lower (some (join_text scheme (String.◌∷◌ " " token)))
          ≡ ok (some token))
        ↔ IsToken token
  unfolding extract_bearer_token
  extract_bearer_token-IsToken token = rw (partition-blank scheme token is_word) (accepted, accepts)
    where
      accepts : IsToken token → accept lower (scheme, true, token) ≡ ok (some token)
      accepts (full, short, solid) =
          let fits : ltb 8192 (text_length token) ≡ false = ground (arith, short) in
          rw (strip-id token solid, is_bearer, full, fits, solid) refl

      accepted : accept lower (scheme, true, token) ≡ ok (some token) → IsToken token
      accepted h = elim (Bool-cases (is_unusable lower scheme true (strip token))) [
        | inl unusable ↦ absurd (ground (arith, h, unusable))
        | inr usable ↦
            let same : strip token ≡ token = ground (arith, h, usable) in
            let passes : is_unusable lower scheme true token ≡ false =
              ap (is_unusable lower scheme true) (sym same) ∙ usable in
            ground (arith, passes)
      ]
