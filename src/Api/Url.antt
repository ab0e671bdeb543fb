-- ===== src/Api/Url.antt =====
-- `normalizeBaseUrl`, `proxyUrl` and `headers` of frontend/src/lib/api.ts.
use llm_router_ui.Prelude.{
  ℕ, Bool, true, false, ◌≡◌, refl, ap, [], ◌∷◌, ◌++◌, ◌==◌, if◌then◌else◌, arith,
}
use llm_router_ui.Text.{Text, codes, is_space, trim, drop_end, drop_start, is_empty, starts_with}
use llm_router_ui.Text.Laws.{EndsOff, drop_end-EndsOff, drop_end_of_EndsOff, drop_start-EndsOff}
use llm_router_ui.Types.{Provider}

abbrev is_slash : ℕ → Bool
is_slash c = c == b'/'

unfoldable pub normalize_base_url : Text → Text
normalize_base_url base_url = drop_end is_slash (trim base_url)

unfoldable pub proxy_url : Text → Text → Text
unfolding normalize_base_url starts_with
proxy_url base_url path =
    let base = normalize_base_url base_url in
    if starts_with (codes "/") base then base ++ path else codes "/proxy/remote/" ++ (base ++ path)

pub record Headers : Type 0 where
  pub content_type : Text
  pub authorization : Text

unfoldable pub headers : Provider → Headers
headers provider = record {
  content_type = codes "application/json";
  authorization = codes "Bearer " ++ provider.api_key;
}

-- A normalised base URL ends in no slash, however many the caller pasted.
pub normalize_base_url-EndsOff : (s : Text) → EndsOff is_slash (normalize_base_url s)
unfolding normalize_base_url
normalize_base_url-EndsOff s = drop_end-EndsOff is_slash (trim s)

-- the URL that a normalised base gives
abbrev proxied : Text → Text → Text
proxied base path =
    if starts_with (codes "/") base then base ++ path else codes "/proxy/remote/" ++ (base ++ path)

proxied-relative :
    (base path : Text)
    → EndsOff is_slash base
    → (starts_with (codes "/") (proxied base path) ≡ true)
      × (starts_with (codes "//") (proxied base path) ≡ starts_with (codes "//") base)
unfolding starts_with
proxied-relative [] path h = (refl, refl)
proxied-relative (c ∷ []) path h = (ground (arith, h), ground (arith, h))
proxied-relative (c ∷ d ∷ s) path h = (ground arith, ground arith)

-- Every request goes to a URL that begins with a slash, for relative and for absolute base URLs; it
-- begins with two, and so names a host that need not be the page's own, exactly where the
-- normalised base URL, which is the base URL with the white space at its ends and then the slashes
-- at its end cut off, begins with two.
pub proxy_url-relative :
    (base_url path : Text)
    → (starts_with (codes "/") (proxy_url base_url path) ≡ true)
      × (starts_with (codes "//") (proxy_url base_url path)
          ≡ starts_with (codes "//") (normalize_base_url base_url))
unfolding proxy_url
proxy_url-relative base_url path =
    proxied-relative (normalize_base_url base_url) path (normalize_base_url-EndsOff base_url)

-- Trailing slashes make no difference.
drop_end-append_slash : (s : Text) → drop_end is_slash (s ++ b'/' ∷ []) ≡ drop_end is_slash s
unfolding drop_end is_empty
drop_end-append_slash [] = refl
drop_end-append_slash (c ∷ s) = rw (drop_end-append_slash s)

slash_not_space : is_space b'/' ≡ false
unfolding is_space
slash_not_space = refl

drop_start-append_slash :
    (s : Text) → drop_start is_space (s ++ b'/' ∷ []) ≡ drop_start is_space s ++ b'/' ∷ []
unfolding drop_start
drop_start-append_slash [] = rw slash_not_space
drop_start-append_slash (c ∷ s) = ground (arith, drop_start-append_slash s)

EndsOff-append_slash : (s : Text) → EndsOff is_space (s ++ b'/' ∷ [])
unfolding is_space
EndsOff-append_slash [] = refl
EndsOff-append_slash (c ∷ []) = refl
EndsOff-append_slash (c ∷ d ∷ s) = EndsOff-append_slash (d ∷ s)

-- A slash pasted behind a base URL that ends in no white space makes no difference to the URL of any
-- request.
pub proxy_url-slash :
    (base_url path : Text)
    → EndsOff is_space base_url
    → proxy_url (base_url ++ b'/' ∷ []) path ≡ proxy_url base_url path
unfolding proxy_url
proxy_url-slash base_url path h =
    ap (λ b. if starts_with (codes "/") b then b ++ path else codes "/proxy/remote/" ++ (b ++ path))
      same_base
  where
    t : Text
    t = drop_start is_space base_url

    same_base : normalize_base_url (base_url ++ b'/' ∷ []) ≡ normalize_base_url base_url
    same_base =
        unfold normalize_base_url trim in
        rw
          (
            drop_start-append_slash base_url,
            drop_end_of_EndsOff is_space (t ++ b'/' ∷ []) (EndsOff-append_slash t),
            drop_end_of_EndsOff is_space t (drop_start-EndsOff is_space is_space base_url h),
          )
          (drop_end-append_slash t)
