-- ===== src/Rclone/Config.antt =====
-- pkg/rclone/config.go: the inline S3 remote and the crypt passwords.
pub mod Quoting
use lukscryptwalker_csi.Base.{
  ℕ, Bool, true, false, not, ◌||◌, Option, none, some, List, [], ◌∷◌, ◌++◌, any, ◌==◌,
  if◌then◌else◌,
}
use lukscryptwalker_csi.Base.Bytes.{Bytes, codes, bytes_eq}

pub record S3Config : Type 0 where
  pub provider : Bytes
  pub region : Bytes
  pub endpoint : Bytes
  pub access_key_id : Bytes
  pub secret_access_key : Bytes
  pub bucket : Bytes
  pub force_path_style : Bool

-- one of ":,=' \t"
abbrev pub is_special : ℕ → Bool
is_special c = c == b':' || c == b',' || c == b'=' || c == 39 || c == 32 || c == 9

-- strings.ReplaceAll(value, "'", "''")
unfoldable pub double_quotes : Bytes → Bytes
double_quotes [] = []
double_quotes (c ∷ s) = let rest = double_quotes s in if c == 39 then 39 ∷ 39 ∷ rest else c ∷ rest

unfoldable pub quote_value : Bytes → Bytes
unfolding double_quotes any
quote_value value = if any is_special value then 39 ∷ (double_quotes value ++ (39 ∷ [])) else value

-- strings.Join(parts, ",")
unfoldable pub join_commas : List Bytes → Bytes
join_commas [] = []
join_commas (p ∷ []) = p
join_commas (p ∷ q ∷ ps) = p ++ (codes "," ++ join_commas (q ∷ ps))

unfoldable pub provider_of : S3Config → Bytes
provider_of c =
    if not (bytes_eq c.provider [])
    then c.provider
    else if not (bytes_eq c.endpoint [])
    then codes "Other"
    else codes "AWS"

unfoldable pub parts_of : S3Config → List Bytes
unfolding provider_of quote_value
parts_of c =
    (codes "provider=" ++ provider_of c)
    ∷ codes "env_auth=false"
    ∷ (codes "access_key_id=" ++ quote_value c.access_key_id)
    ∷ (codes "secret_access_key=" ++ quote_value c.secret_access_key)
    ∷ (codes "region=" ++ quote_value c.region)
    ∷ ((if not (bytes_eq c.endpoint [])
          then (codes "endpoint=" ++ quote_value c.endpoint) ∷ []
          else [])
        ++ (if c.force_path_style then codes "force_path_style=true" ∷ [] else []))

-- BuildS3RemoteString; `none` is the error
unfoldable pub build_s3_remote_string : S3Config → Bytes → Option Bytes
unfolding parts_of join_commas
build_s3_remote_string c path =
    if bytes_eq c.bucket [] || bytes_eq c.region []
    then none
    else some (
        codes ":s3,"
        ++ (join_commas (parts_of c)
            ++ (codes ":"
                ++ (if bytes_eq path [] then c.bucket else c.bucket ++ (codes "/" ++ path)))))

-- CryptConfig
pub record CryptConfig : Type 0 where
  pub password : Bytes
  pub password2 : Bytes

unfoldable pub derive_rclone_crypt_config : Bytes → Bytes → CryptConfig
derive_rclone_crypt_config luks_passphrase salt = record {
  password = luks_passphrase;
  password2 = luks_passphrase ++ (codes "-" ++ salt);
}
