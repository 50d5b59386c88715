-- ===== src/Transport/Auth/Refresh.antt =====
-- The cache of keys when the identity provider does not answer, and when it does.
use jungle_gaming_challenge.Base.{
  ℕ, ◌≡◌, ◌≢◌, refl, ap, false, List, [], ◌∷◌, Option, none, some, Bool-cases, ◌⊎◌, inl, inr, All,
  ◌==◌, arith,
}
use jungle_gaming_challenge.Base.Text.{Text, codes, text_eq}
use jungle_gaming_challenge.Transport.Auth.Keys.{
  Cache, Fetch, unreachable, answered, JwksKey, rsa_keys, PublicKey, lookup, refresh_keys,
  key_for_kid, is_stale, found_key,
}

-- A fetch that brings no keys: there is no answer, another status than 200, a body that is no JWKS, or one
-- without a key of type RSA.
abbrev pub BringsNone : Fetch → Type 0
BringsNone unreachable = Unit
BringsNone (answered status none) = Unit
BringsNone (answered status (some ks)) =
    (status ≢ 200) ⊎ All (λ k. text_eq k.kty (codes "RSA") ≡ false) ks

no_rsa_keys :
    (ks : List JwksKey) → All (λ k. text_eq k.kty (codes "RSA") ≡ false) ks → rsa_keys [] ks ≡ []
unfolding rsa_keys
no_rsa_keys [] h = refl
no_rsa_keys (k ∷ ks) h = rw (rsa_keys, h.0) (no_rsa_keys ks h.1)

not_refreshed :
    (now : ℕ) (fetch : Fetch) (cache : Cache)
    → BringsNone fetch
    → refresh_keys now fetch cache ≡ (false, cache)
unfolding refresh_keys
not_refreshed now unreachable cache h = refl
not_refreshed now (answered status none) cache h = elim (Bool-cases (status == 200)) [
  | inl e ↦ rw e refl
  | inr e ↦ rw e refl
]
not_refreshed now (answered status (some ks)) cache (inl other) = rw (differs status other) refl
  where
    differs : (n : ℕ) → n ≢ 200 → (n == 200) ≡ false
    differs n h = ground arith
not_refreshed now (answered status (some ks)) cache (inr none_rsa) =
    elim (Bool-cases (status == 200)) [
      | inl e ↦ rw (e, no_rsa_keys ks none_rsa) refl
      | inr e ↦ rw e refl
    ]

unrefreshed :
    (now refreshed_at : ℕ) (fetch : Fetch) (kid : Text) (cache : Cache)
    → refresh_keys refreshed_at fetch cache ≡ (false, cache)
    → key_for_kid now refreshed_at fetch kid cache ≡ (lookup kid cache.keys, cache)
unfolding key_for_kid
unrefreshed now refreshed_at fetch kid cache failed = by_key (lookup kid cache.keys) refl
  where
    served :
        (key : PublicKey) → lookup kid cache.keys ≡ some key → found_key kid cache.keys ≡ some key
    served key h = rw (found_key, h) refl

    by_key :
        (o : Option PublicKey)
        → lookup kid cache.keys ≡ o
        → key_for_kid now refreshed_at fetch kid cache ≡ (lookup kid cache.keys, cache)
    by_key none h = rw (failed, h) refl
    by_key (some key) h = elim (Bool-cases (is_stale now cache.fetched_at)) [
      | inl old ↦ rw (failed, h, old) (ap (λ o. (o, cache)) (served key h))
      | inr young ↦ rw (failed, h, young) refl
    ]

-- While a fetch brings no keys, for want of an answer, by its status, or by its body, the cache stays as
-- it is, and a key that it holds is served from it however old it is; for a key that it does not hold
-- there is none.
pub key_for_kid-FromCache :
    (now refreshed_at : ℕ) (fetch : Fetch) (kid : Text) (cache : Cache)
    → BringsNone fetch
    → key_for_kid now refreshed_at fetch kid cache ≡ (lookup kid cache.keys, cache)
key_for_kid-FromCache now refreshed_at fetch kid cache h =
    unrefreshed now refreshed_at fetch kid cache (not_refreshed refreshed_at fetch cache h)
