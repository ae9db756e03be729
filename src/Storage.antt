-- ===== src/Storage.antt =====
-- server/internal/storage/resolver.go: the playable URL of an ad's media. Presigning is a
-- parameter, with the S3 client present or not.
pub mod Joined
pub mod S3
use openadsource.Common.{
  Option, none, some, [], ◌∷◌, ◌++◌, if◌then◌else◌, ◌==◌, ◌&&◌, not, Text, codes, text_eq,
}

-- strings.TrimLeft of '/', which is 47.
unfoldable pub trim_left : Text → Text
trim_left [] = []
trim_left (c ∷ s) = let rest = trim_left s in if c == 47 then rest else c ∷ s

-- strings.TrimRight of '/'.
unfoldable pub trim_right : Text → Text
trim_right [] = []
trim_right (c ∷ s) = let rest = trim_right s in if c == 47 && text_eq rest [] then [] else c ∷ rest

pub record Resolver : Type 0 where
  pub public_base_url : Text
  -- The client's Presign with the source's time to live; `none` is an error, also without a client.
  pub presign : Text → Option Text

unfoldable pub new_resolver : Text → (Text → Option Text) → Resolver
unfolding trim_right
new_resolver base presign = record { public_base_url = trim_right base; presign = presign }

unfoldable pub resolve_media_url : Resolver → Text → Text → Option Text
unfolding trim_left
resolve_media_url r source url =
    if text_eq source (codes "external_url")
    then some url
    else if text_eq source (codes "internal_s3")
    then (if not (text_eq r.public_base_url [])
        then some (r.public_base_url ++ codes "/" ++ trim_left url)
        else r.presign url)
    else none
