-- ===== src/Auth/ForgeryTests.antt =====
-- A form of another site.
use oxbrook.Prelude.{
  ◌≡◌, ◌≢◌, ◌⊎◌, inl, inr, refl, sym, subst, true, false, none, some, [], ◌∷◌, codes, All, Text,
  text_eq, text_eq_refl,
}
use oxbrook.Auth.Session.{
  user, Request, SessionAuth, normal, authority, parted, before_comma, nothing, refused,
  authenticate,
}
use oxbrook.Auth.Forgery.{IsForeign, IsHost, authenticate-foreign}

abbrev web : SessionAuth
web = record {
  name = 1;
  csrf = true;
  trusted = codes "https://friend.example" ∷ [];
  decode = λ _. record { value = some 5; token = some (codes "secret") };
  load = some (λ _. user);
}

abbrev evil : Text
evil = codes "https://evil.example"

abbrev form : Request
form = record {
  method = codes "POST";
  site = some (codes "cross-site");
  origin = some evil;
  host = some (codes "notes.example:443");
  forwarded_host = none;
  csrf = none;
  cookie = some (codes "cookie");
}

apart : (s t : Text) → text_eq s t ≡ false → s ≢ t
apart s t h e =
    let same : text_eq s t ≡ true = subst (λ u. text_eq s u ≡ true) e (text_eq_refl s) in absurd cc

at_home : (host : Text) → IsHost form host → codes "notes.example:443" ≡ host
at_home host (inl q) = cc
at_home host (inr q) = absurd cc

-- The authority of the form's origin.
abbrev Away : Text → Text → Text → Type 0
Away origin scheme rest =
    (host : Text)
    → IsHost form host
    → authority (before_comma host) none ≢ authority rest (some scheme)

evil-Away : Away evil (codes "https") (codes "evil.example")
unfolding authority normal
evil-Away host q =
    subst
      (λ h.
        authority (before_comma h) none ≢ authority (codes "evil.example") (some (codes "https")))
      (at_home host q) (apart (codes "notes.example") (codes "evil.example") refl)

form-IsForeign : IsForeign web form
unfolding normal
form-IsForeign = record {
  changes = (
    apart (codes "POST") (codes "GET") refl,
    (apart (codes "POST") (codes "HEAD") refl, (apart (codes "POST") (codes "OPTIONS") refl, tt)),
  );
  other_site = λ site e.
      let same : codes "cross-site" ≡ site = cc in
      subst (λ s. All (λ own. normal s ≢ own) (codes "same-origin" ∷ codes "none" ∷ [])) same
        (
          apart (codes "cross-site") (codes "same-origin") refl,
          (apart (codes "cross-site") (codes "none") refl, tt),
        );
  untrusted = λ origin e.
      let same : evil ≡ origin = cc in
      subst (λ s. All (λ t. normal s ≢ t) web.trusted) same
        (apart evil (codes "https://friend.example") refl, tt);
  other_host = λ origin scheme rest host e p q.
      let same : evil ≡ origin = cc in
      let here : some (codes "https", codes "evil.example") ≡ some (scheme, rest) =
        subst (λ s. parted (normal s) ≡ some (scheme, rest)) (sym same) p in
      let first : codes "https" ≡ scheme = cc here in
      let second : codes "evil.example" ≡ rest = cc here in
      subst (λ s. authority (before_comma host) none ≢ authority rest (some s)) first
        (subst (λ s. authority (before_comma host) none ≢ authority s (some (codes "https"))) second
          (evil-Away host q));
  no_token = λ cookie token e t q. cc;
}

authenticate-foreign_example :
    (authenticate web form ≡ (nothing, [])) ⊎ (authenticate web form ≡ (refused, []))
authenticate-foreign_example = authenticate-foreign web form refl form-IsForeign
