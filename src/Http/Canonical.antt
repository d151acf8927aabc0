-- ===== src/Http/Canonical.antt =====
-- Canonical names of headers.
use hasura_secret_refresh.Base.{
  ℕ, ◌≡◌, refl, Bool, true, false, ◌&&◌, [], ◌∷◌, arith, ◌==◌, Bool-cases, inl, inr,
}
use hasura_secret_refresh.Strings.{Text}
use hasura_secret_refresh.Http.{is_token, all_token, canonical_case, canonical_from, canonical_key}

canonical_case-token :
    (up : Bool) (c : ℕ) → is_token c ≡ true → is_token (canonical_case up c) ≡ true
unfolding is_token canonical_case
canonical_case-token true c h = ground arith
canonical_case-token false c h = ground arith

canonical_case-twice :
    (up : Bool) (c : ℕ) → canonical_case up (canonical_case up c) ≡ canonical_case up c
unfolding canonical_case
canonical_case-twice true c = ground arith
canonical_case-twice false c = ground arith

canonical_case-dash : (up : Bool) (c : ℕ) → (canonical_case up c == b'-') ≡ (c == b'-')
unfolding canonical_case
canonical_case-dash true c = ground arith
canonical_case-dash false c = ground arith

both_mono :
    (p q : Bool) {p' q' : Bool}
    → (p ≡ true → p' ≡ true)
    → (q ≡ true → q' ≡ true)
    → p && q ≡ true
    → p' && q' ≡ true
both_mono true true f g h = rw (f refl, g refl) refl
both_mono true false f g h = cc
both_mono false q f g h = cc

canonical_from-token :
    (up : Bool) (s : Text) → all_token s ≡ true → all_token (canonical_from up s) ≡ true
unfolding canonical_from all_token
canonical_from-token up [] h = refl
canonical_from-token up (c ∷ s) h =
    both_mono (is_token c) (all_token s) (canonical_case-token up c)
      (canonical_from-token (c == b'-') s) h

canonical_from-twice :
    (up : Bool) (s : Text) → canonical_from up (canonical_from up s) ≡ canonical_from up s
unfolding canonical_from
canonical_from-twice up [] = refl
canonical_from-twice up (c ∷ s) =
    rw (canonical_case-dash up c, canonical_case-twice up c, canonical_from-twice (c == b'-') s)
      refl

-- A canonical name is its own canonical form.
pub canonical_key-twice : (s : Text) → canonical_key (canonical_key s) ≡ canonical_key s
unfolding canonical_key
canonical_key-twice s = elim (Bool-cases (all_token s)) [
  | inl good ↦
      rw (canonical_key, good) (rw (canonical_from-token true s good) (canonical_from-twice true s))
  | inr bad ↦ rw (canonical_key, bad) (rw (canonical_key, bad) refl)
]
