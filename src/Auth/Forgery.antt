-- ===== src/Auth/Forgery.antt =====
-- `SessionAuth` on requests that another site's page makes a browser send.
use oxbrook.Prelude.{
  ℕ, ◌≡◌, ◌≢◌, ◌⊎◌, inl, inr, refl, not, ◌&&◌, Bool, true, false, Option, none, some, List, [], ◌∷◌,
  Text, text_eq, text_eq_sound, codes, All, Bool-cases,
}
use oxbrook.Auth.Session.{
  Request, normal, authority, parted, before_comma, names, names_host, same_origin, SessionAuth,
  is_listed, site_of, is_own_site, is_empty, shows_token, from_origin, forged, nothing, refused,
  with_value, from_cookie, authenticate,
}

-- The server's names for itself: the hosts in the headers that say which it was asked as.
abbrev pub IsHost : Request → Text → Type 0
IsHost r host = (r.host ≡ some host) ⊎ (r.forwarded_host ≡ some host)

-- A request as a browser sends it for a page of another site: its method is not a safe one; the
-- browser says that the site is another, or is too old to say; it names the page's origin, which is
-- not trusted and whose authority is none of the server's, or names none; and the page does not know
-- the session's token.
pub record IsForeign (a : SessionAuth) (r : Request) : Type 0 where
  pub changes : All (λ safe. r.method ≢ safe) (codes "GET" ∷ codes "HEAD" ∷ codes "OPTIONS" ∷ [])
  pub other_site :
      (site : Text)
      → r.site ≡ some site
      → All (λ own. normal site ≢ own) (codes "same-origin" ∷ codes "none" ∷ [])
  pub untrusted : (origin : Text) → r.origin ≡ some origin → All (λ t. normal origin ≢ t) a.trusted
  pub other_host :
      (origin scheme rest host : Text)
      → r.origin ≡ some origin
      → parted (normal origin) ≡ some (scheme, rest)
      → IsHost r host
      → authority (before_comma host) none ≢ authority rest (some scheme)
  pub no_token :
      (cookie token : Text)
      → r.cookie ≡ some cookie
      → (a.decode cookie).token ≡ some token
      → r.csrf ≢ some token

differs : (s t : Text) → s ≢ t → text_eq s t ≡ false
differs s t h = elim (Bool-cases (text_eq s t)) [
  | inl e ↦ absurd (h (text_eq_sound s t e))
  | inr e ↦ e
]

unlisted : (s : Text) (ts : List Text) → All (λ t. s ≢ t) ts → is_listed s ts ≡ false
unlisted s [] h = refl
unlisted s (t ∷ ts) (n, h) = rw (differs s t n) (unlisted s ts h)

site_of-foreign :
    (a : SessionAuth) (r : Request) → IsForeign a r → is_own_site (site_of r.site) ≡ false
site_of-foreign a r h = go r.site refl
  where
    go : (o : Option Text) → r.site ≡ o → is_own_site (site_of o) ≡ false
    go none e = refl
    go (some site) e =
        unlisted (normal site) (codes "same-origin" ∷ codes "none" ∷ []) (h.other_site site e)

names-differs :
    (wanted : Text) (o : Option Text)
    → ((host : Text) → o ≡ some host → authority (before_comma host) none ≢ wanted)
    → names wanted o ≡ false
names-differs wanted none h = refl
names-differs wanted (some []) h = refl
names-differs wanted (some (c ∷ value)) h =
    differs (authority (before_comma (c ∷ value)) none) wanted (h (c ∷ value) refl)

same_origin-foreign :
    (a : SessionAuth) (r : Request) (origin : Text)
    → IsForeign a r
    → r.origin ≡ some origin
    → same_origin origin r ≡ false
unfolding same_origin
same_origin-foreign a r origin h e = go (parted (normal origin)) refl
  where
    go : (o : Option (Text × Text)) → parted (normal origin) ≡ o → names_host r o ≡ false
    go none p = refl
    go (some (scheme, [])) p = refl
    go (some (scheme, c ∷ rest)) p =
        let wanted = authority (c ∷ rest) (some scheme) in
        rw
          (
            names-differs wanted r.host
                (λ host q. h.other_host origin scheme (c ∷ rest) host e p (inl q)),
            names-differs wanted r.forwarded_host
                (λ host q. h.other_host origin scheme (c ∷ rest) host e p (inr q)),
          )
          refl

shows_token-other :
    (t o : Option Text)
    → ((token : Text) → t ≡ some token → o ≢ some token)
    → shows_token t o ≡ false
shows_token-other none o h = refl
shows_token-other (some expected) none h = refl
shows_token-other (some expected) (some offered) h =
    go (not (is_empty expected)) (differs offered expected (λ e. h expected refl (rw e refl)))
  where
    go : (b : Bool) → text_eq offered expected ≡ false → (b && text_eq offered expected) ≡ false
    go true e = e
    go false e = refl

from_origin-foreign :
    (a : SessionAuth) (r : Request) (cookie : Text)
    → IsForeign a r
    → r.cookie ≡ some cookie
    → from_origin a r (a.decode cookie) (site_of r.site) r.origin ≡ true
from_origin-foreign a r cookie h k = go r.origin refl
  where
    go :
        (o : Option Text)
        → r.origin ≡ o
        → from_origin a r (a.decode cookie) (site_of r.site) o ≡ true
    go (some origin) e =
        rw
          (
            same_origin-foreign a r origin h e,
            unlisted (normal origin) a.trusted (h.untrusted origin e),
          )
          refl
    go none e =
        rw
          (shows_token-other (a.decode cookie).token r.csrf
            (λ token t. h.no_token cookie token k t))
          (no_token (is_empty (site_of r.site)))
      where
        no_token : (b : Bool) → not (b && false) ≡ true
        no_token true = refl
        no_token false = refl

forged-foreign :
    (a : SessionAuth) (r : Request) (cookie : Text)
    → IsForeign a r
    → r.cookie ≡ some cookie
    → forged a r (a.decode cookie) ≡ true
unfolding forged
forged-foreign a r cookie h k =
    rw
      (
        unlisted r.method (codes "GET" ∷ codes "HEAD" ∷ codes "OPTIONS" ∷ []) h.changes,
        site_of-foreign a r h,
      )
      (from_origin-foreign a r cookie h k)

-- A session never lets in a request that another site's page made a browser send, whatever session
-- the cookie holds, and `load` is not called for it. The check is on, and the request is as a
-- browser sends it for such a page: its method is not GET, HEAD or OPTIONS; the browser names
-- another site or is too old to name one; its origin is missing, or is not trusted and has an
-- authority that is none of the server's; and it does not show the token of the session.
pub authenticate-foreign :
    (a : SessionAuth) (r : Request)
    → a.csrf ≡ true
    → IsForeign a r
    → (authenticate a r ≡ (nothing, [])) ⊎ (authenticate a r ≡ (refused, []))
unfolding authenticate
authenticate-foreign a r on h = go r.cookie refl
  where
    at :
        (cookie : Text) (o : Option ℕ)
        → r.cookie ≡ some cookie
        → (with_value a r (a.decode cookie) o ≡ (nothing, []))
          ⊎ (with_value a r (a.decode cookie) o ≡ (refused, []))
    at cookie none k = inl refl
    at cookie (some value) k = inr (rw (forged-foreign a r cookie h k, on) refl)

    go :
        (o : Option Text)
        → r.cookie ≡ o
        → (from_cookie a r o ≡ (nothing, [])) ⊎ (from_cookie a r o ≡ (refused, []))
    go none k = inl refl
    go (some []) k = inl refl
    go (some (c ∷ raw)) k = at (c ∷ raw) (a.decode (c ∷ raw)).value k
