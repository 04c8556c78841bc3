-- ===== src/Info/Auth.antt =====
-- The authentication service of an info.json, server-rs/src/info.rs.
use sipi.Common.{
  List, [], ◌∷◌, Bool, true, false, ◌||◌, Option, none, some, Text, codes, ◌=t=◌, if◌then◌else◌,
}
use sipi.Info.Json.{
  Json, str, arr, obj, Elements, no_elements, element, Members, no_members, insert,
}
use sipi.Preflight.{SipiPermType, allow, login, clickthrough, kiosk, external, restrict, deny}
use sipi.Access.{lookup}

unfoldable pub is_auth_type : SipiPermType → Bool
is_auth_type allow = false
is_auth_type login = true
is_auth_type clickthrough = true
is_auth_type kiosk = true
is_auth_type external = true
is_auth_type restrict = false
is_auth_type deny = false

unfoldable pub profile_of : SipiPermType → Option Text
profile_of allow = none
profile_of login = some (codes "http://iiif.io/api/auth/1/login")
profile_of clickthrough = some (codes "http://iiif.io/api/auth/1/clickthrough")
profile_of kiosk = some (codes "http://iiif.io/api/auth/1/kiosk")
profile_of external = some (codes "http://iiif.io/api/auth/1/external")
profile_of restrict = none
profile_of deny = none

-- The keys that are not passed through.
unfoldable pub is_structural : Text → Bool
is_structural k =
    k =t= codes "cookieUrl"
    || k =t= codes "tokenUrl"
    || k =t= codes "logoutUrl"
    || k =t= codes "infile"

module _ {R : Type 0} where
  unfoldable pub pass_through : Members R → List (Text × Text) → Members R
  unfolding insert is_structural
  pass_through m [] = m
  pass_through m ((k, v) ∷ kv) =
      if is_structural k then pass_through m kv else pass_through (insert m k (str v)) kv

  -- A service of the authentication, with its profile.
  unfoldable pub sub_service : Text → Text → Json R
  unfolding insert
  sub_service url profile =
      obj (insert (insert no_members (codes "@id") (str url)) (codes "profile") (str profile))

  unfoldable pub sub_services : Text → Option Text → Elements R
  unfolding sub_service
  sub_services token_url logout =
      element (sub_service token_url (codes "http://iiif.io/api/auth/1/token")) (elim logout [
        | none ↦ no_elements
        | some url ↦
            element (sub_service url (codes "http://iiif.io/api/auth/1/logout")) no_elements
      ])

  -- The context, the cookie service and the profile.
  unfoldable pub service_base : Text → Text → Members R
  unfolding insert
  service_base profile cookie_url =
      let m =
        insert no_members (codes "@context")
          (str (codes "http://iiif.io/api/auth/1/context.json")) in
      insert (insert m (codes "@id") (str cookie_url)) (codes "profile") (str profile)

  unfoldable pub auth_service : SipiPermType → List (Text × Text) → Option (Members R)
  unfolding profile_of lookup sub_services service_base pass_through insert
  auth_service permission kv = elim (profile_of permission) [
    | none ↦ none
    | some profile ↦ elim (lookup (codes "cookieUrl") kv) [
      | none ↦ none
      | some cookie_url ↦ elim (lookup (codes "tokenUrl") kv) [
        | none ↦ none
        | some token_url ↦ some (
            insert (pass_through (service_base profile cookie_url) kv) (codes "service")
              (arr (sub_services token_url (lookup (codes "logoutUrl") kv))))
      ]
    ]
  ]
