-- ===== src/Oauth/Key.antt =====
-- The keys of the token cache: getCacheKey joins four ids by underscores.
use hasura_secret_refresh.Base.{
  ℕ, suc, ◌+◌, ◌≡◌, refl, [], ◌∷◌, ◌++◌, ap, arith, if◌then◌else◌, ◌==◌, append_assoc,
}
use hasura_secret_refresh.Strings.{Text, codes}
use hasura_secret_refresh.Oauth.{TokenFetcher, get_cache_key}

-- How many underscores a text holds.
abbrev pub underscores : Text → ℕ
underscores [] = 0
underscores (c ∷ s) = if c == b'_' then suc (underscores s) else underscores s

underscores-append : (s t : Text) → underscores (s ++ t) ≡ underscores s + underscores t
underscores-append [] t = omega arith
underscores-append (c ∷ s) t = ground (arith, underscores-append s t)

-- None of the four ids of a fetcher holds an underscore.
pub record IsPlain (f : TokenFetcher) : Type 0 where
  pub certificate : underscores f.certificate_secret_id ≡ 0
  pub backend : underscores f.backend_api_id ≡ 0
  pub client : underscores f.oauth_client_id ≡ 0
  pub private_key : underscores f.private_key_secret_id ≡ 0

-- A text is cut in one way at its first underscore.
cut_unique :
    (a b s t : Text)
    → underscores a ≡ 0
    → underscores b ≡ 0
    → a ++ (codes "_" ++ s) ≡ b ++ (codes "_" ++ t)
    → (a ≡ b) × (s ≡ t)
cut_unique [] [] s t h k e = (refl, ground (arith, e))
cut_unique [] (d ∷ b) s t h k e = absurd (ground (arith, e))
cut_unique (c ∷ a) [] s t h k e = absurd (ground (arith, e))
cut_unique (c ∷ a) (d ∷ b) s t h k e = ground (arith, cut_unique a b s t)

underscores-get_cache_key :
    (f : TokenFetcher)
    → underscores (get_cache_key f)
      ≡ underscores f.certificate_secret_id
        + underscores f.backend_api_id
        + underscores f.oauth_client_id
        + underscores f.private_key_secret_id
        + 3
unfolding get_cache_key
underscores-get_cache_key f = omega (
  arith,
  underscores-append f.certificate_secret_id (
      codes "_"
      ++ (f.backend_api_id
          ++ (codes "_" ++ (f.oauth_client_id ++ (codes "_" ++ f.private_key_secret_id))))),
  underscores-append f.backend_api_id
      (codes "_" ++ (f.oauth_client_id ++ (codes "_" ++ f.private_key_secret_id))),
  underscores-append f.oauth_client_id (codes "_" ++ f.private_key_secret_id),
)

-- A fetcher with the key of another whose ids hold no underscore has such ids too.
get_cache_key-IsPlain :
    (f g : TokenFetcher) → IsPlain f → get_cache_key f ≡ get_cache_key g → IsPlain g
get_cache_key-IsPlain f g plain e =
    omega (arith, underscores-get_cache_key f, underscores-get_cache_key g, ap underscores e)

-- Ids without an underscore can be read back from the key: two fetchers with one key are the same,
-- if the ids of one of them hold none.
pub get_cache_key-injective :
    (f g : TokenFetcher) → IsPlain f → get_cache_key f ≡ get_cache_key g → f ≡ g
unfolding get_cache_key
get_cache_key-injective f g p e =
    let q = get_cache_key-IsPlain f g p e in
    let (certificates, rest) = cut_unique _ _ _ _ p.certificate q.certificate e in
    let (backends, rest') = cut_unique _ _ _ _ p.backend q.backend rest in
    let (clients, keys) = cut_unique _ _ _ _ p.client q.client rest' in
    λ i. record {
      certificate_secret_id = certificates i;
      private_key_secret_id = keys i;
      backend_api_id = backends i;
      oauth_client_id = clients i;
    }

-- A fetcher of four ids, in the order of its key.
abbrev pub ids : Text → Text → Text → Text → TokenFetcher
ids certificate backend client private_key = record {
  certificate_secret_id = certificate;
  private_key_secret_id = private_key;
  backend_api_id = backend;
  oauth_client_id = client;
}

-- An underscore at the end of the backend's id counts as well for the client's.
pub get_cache_key-split :
    (certificate private_key b x client : Text)
    → get_cache_key (ids certificate (b ++ (codes "_" ++ x)) client private_key)
      ≡ get_cache_key (ids certificate b (x ++ (codes "_" ++ client)) private_key)
unfolding get_cache_key
get_cache_key-split certificate private_key b x client = simp (append_assoc)
