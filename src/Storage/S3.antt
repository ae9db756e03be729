-- ===== src/Storage/S3.antt =====
-- server/internal/storage/s3.go: the client of the object store. The AWS SDK is a parameter: what it
-- loads, builds and answers. A nil client is none.
use openadsource.Common.{
  Bool, false, Option, none, some, [], if◌then◌else◌, Text, ◌⊎◌, inl, inr, ◌≡◌, refl,
}
use openadsource.Common.Int.{ℤ}
use openadsource.Config.{Config, s3_configured}

pub data S3Error : Type 0 where
  aws_config_failed nil_client presign_failed put_failed : S3Error

-- The SDK: a configuration from a region and two keys, a client from it with an endpoint and a
-- style of paths, the URL of a bucket's key for some time, and an upload; none and false for errors.
pub record Sdk : Type 1 where
  pub AwsConfig : Type 0
  pub Client : Type 0
  pub load_default : Text → Text → Text → Option AwsConfig
  pub new_from_config : AwsConfig → Text → Bool → Client
  pub presign_get : Client → Text → Text → ℤ → Option Text
  pub put : Client → Text → Text → Text → Text → Bool

module _ (sdk : Sdk) where
  open sdk use {Client, load_default, new_from_config, presign_get, put}

  pub record S3Client : Type 0 where
    pub client : Client
    pub bucket : Text

  unfoldable pub new_s3_client : {F : Type 0} → Config F → S3Error ⊎ Option S3Client
  new_s3_client cfg =
      if s3_configured cfg
      then elim (load_default cfg.s3_region cfg.s3_access_key_id cfg.s3_secret_access_key) [
        | none ↦ inl aws_config_failed
        | some aws ↦ inr (
            some record {
              client = new_from_config aws cfg.s3_endpoint cfg.s3_force_path_style;
              bucket = cfg.s3_bucket;
            })
      ]
      else inr none

  unfoldable pub presign : Option S3Client → Text → ℤ → S3Error ⊎ Text
  presign none key ttl = inl nil_client
  presign (some c) key ttl = elim (presign_get c.client c.bucket key ttl) [
    | none ↦ inl presign_failed
    | some url ↦ inr url
  ]

  -- PutObject; none is no error.
  unfoldable pub put_object : Option S3Client → Text → Text → Text → Option S3Error
  put_object none key body content_type = some nil_client
  put_object (some c) key body content_type =
      if put c.client c.bucket key body content_type then none else some put_failed

  unfoldable pub bucket_of : Option S3Client → Text
  bucket_of none = []
  bucket_of (some c) = c.bucket

  -- Without a configuration of the object store there is no client: nothing is signed or uploaded,
  -- and its bucket has no name.
  pub new_s3_client-unconfigured :
      {F : Type 0} (cfg : Config F) (key body content_type : Text) (ttl : ℤ)
      → s3_configured cfg ≡ false
      → (c : Option S3Client) × (new_s3_client cfg ≡ inr c)
        × (presign c key ttl ≡ inl nil_client)
        × (put_object c key body content_type ≡ some nil_client)
        × (bucket_of c ≡ [])
  unfolding new_s3_client presign put_object bucket_of
  new_s3_client-unconfigured cfg key body content_type ttl e =
      (none, rw (new_s3_client, e) refl, refl, refl, refl)
