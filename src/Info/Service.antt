-- ===== src/Info/Service.antt =====
-- What the authentication service of an info.json says.
use sipi.Common.{
  List, [], ◌∷◌, true, false, Option, none, some, Text, codes, ◌=t=◌, if◌then◌else◌, ◌≡◌, ◌⊎◌, inl,
  inr, refl, sym, ◌∙◌, ap, Option-cases, Bool-cases, eq_iff,
}
use sipi.Info.Json.{Json, str, arr, Members, insert, field, field-insert_self, field-insert_ne}
use sipi.Preflight.{SipiPermType, allow, login, clickthrough, kiosk, external, restrict, deny}
use sipi.Access.{lookup}
use sipi.Info.Auth.{
  is_auth_type, profile_of, is_structural, pass_through, sub_services, service_base, auth_service,
}

profile_of-is_auth_type :
    (p : SipiPermType)
    → ((profile_of p ≡ none) × (is_auth_type p ≡ false))
      ⊎ ((t : Text) × (profile_of p ≡ some t) × (is_auth_type p ≡ true))
unfolding profile_of is_auth_type
profile_of-is_auth_type allow = inl (refl, refl)
profile_of-is_auth_type login = inr (_, refl, refl)
profile_of-is_auth_type clickthrough = inr (_, refl, refl)
profile_of-is_auth_type kiosk = inr (_, refl, refl)
profile_of-is_auth_type external = inr (_, refl, refl)
profile_of-is_auth_type restrict = inl (refl, refl)
profile_of-is_auth_type deny = inl (refl, refl)

module _ {R : Type 0} where
  abbrev pub or_else : Option (Json R) → Option (Json R) → Option (Json R)
  or_else none b = b
  or_else (some a) b = some a

  -- The last value under a key, among those that are passed through.
  unfoldable pub passed : Text → List (Text × Text) → Option (Json R)
  passed key [] = none
  passed key ((k, v) ∷ kv) =
      or_else (passed key kv)
        (if is_structural k then none else if k =t= key then some (str v) else none)

  or_else-none : (o d : Option (Json R)) → or_else o d ≡ or_else (or_else o none) d
  or_else-none none d = refl
  or_else-none (some v) d = refl

  or_else-some :
      (o d : Option (Json R)) (v : Json R) → or_else o (some v) ≡ or_else (or_else o (some v)) d
  or_else-some none d v = refl
  or_else-some (some w) d v = refl

  field-pass_through :
      (key : Text) (m : Members R) (kv : List (Text × Text))
      → field (pass_through m kv) key ≡ or_else (passed key kv) (field m key)
  unfolding pass_through passed
  field-pass_through key m [] = refl
  field-pass_through key m ((k, v) ∷ kv) = elim (Bool-cases (is_structural k)) [
    | inl e ↦
        rw (pass_through, passed, e)
          (field-pass_through key m kv ∙ or_else-none (passed key kv) (field m key))
    | inr e ↦ elim (Bool-cases (k =t= key)) [
      | inl f ↦
          let found : field (insert m k (str v)) key ≡ some (str v) =
            ap (field (insert m k (str v))) (sym ((eq_iff k key).0 f))
            ∙ field-insert_self m k (str v) in
          rw (pass_through, passed, e, f)
            (field-pass_through key (insert m k (str v)) kv
              ∙ ap (or_else (passed key kv)) found
              ∙ or_else-some (passed key kv) (field m key) (str v))
      | inr f ↦
          rw (pass_through, passed, e, f)
            (field-pass_through key (insert m k (str v)) kv
              ∙ ap (or_else (passed key kv)) (field-insert_ne m k (str v) key f)
              ∙ or_else-none (passed key kv) (field m key))
    ]
  ]

  -- What a service has under each key.
  pub record IsService (permission : SipiPermType) (kv : List (Text × Text)) (m : Members R)
      : Type 0 where
    pub profile : Text
    pub cookie_url : Text
    pub token_url : Text
    pub has_profile : profile_of permission ≡ some profile
    pub has_cookie_url : lookup (codes "cookieUrl") kv ≡ some cookie_url
    pub has_token_url : lookup (codes "tokenUrl") kv ≡ some token_url
    pub services :
        field m (codes "service")
        ≡ some (arr (sub_services token_url (lookup (codes "logoutUrl") kv)))
    pub others :
        (key : Text)
        → codes "service" =t= key ≡ false
        → field m key ≡ or_else (passed key kv) (field (service_base profile cookie_url) key)

  -- There is a service exactly for a permission that asks for an authentication, with both its urls. It has
  -- the token service and, with a url for it, the logout service, whatever the other pairs are; and under
  -- any other key the last pair that is passed through, or else the context, the cookie url or the profile.
  pub auth_service-IsService :
      (permission : SipiPermType) (kv : List (Text × Text))
      → (((is_auth_type permission ≡ false)
            ⊎ ((lookup (codes "cookieUrl") kv ≡ none) ⊎ (lookup (codes "tokenUrl") kv ≡ none)))
          × (auth_service {R = R} permission kv ≡ none))
        ⊎ ((is_auth_type permission ≡ true)
            × (m : Members R) × (auth_service permission kv ≡ some m)
            × IsService permission kv m)
  unfolding auth_service
  auth_service-IsService permission kv = elim (profile_of-is_auth_type permission) [
    | inl (e, a) ↦ inl (inl a, rw (auth_service, e) refl)
    | inr (profile, e, a) ↦ elim (Option-cases (lookup (codes "cookieUrl") kv)) [
      | inl f ↦ inl (inr (inl f), rw (auth_service, e, f) refl)
      | inr (cookie_url, f) ↦ elim (Option-cases (lookup (codes "tokenUrl") kv)) [
        | inl g ↦ inl (inr (inr g), rw (auth_service, e, f, g) refl)
        | inr (token_url, g) ↦
            let base = service_base profile cookie_url in
            let m = pass_through base kv in
            let service = arr (sub_services token_url (lookup (codes "logoutUrl") kv)) in
            inr (
              a,
              insert m (codes "service") service,
              rw (auth_service, e, f, g) refl,
              record {
                profile = profile;
                cookie_url = cookie_url;
                token_url = token_url;
                has_profile = e;
                has_cookie_url = f;
                has_token_url = g;
                services = field-insert_self m (codes "service") service;
                others = λ key k.
                    field-insert_ne m (codes "service") service key k
                    ∙ field-pass_through key base kv;
              },
            )
      ]
    ]
  ]
