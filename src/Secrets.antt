-- ===== src/Secrets.antt =====
-- pkg/secrets: which secrets a volume's parameters name, and what is read from them. The API server is a
-- function from a namespace and a name to a secret's data, `none` where the secret cannot be read.
pub mod Sourced
use lukscryptwalker_csi.Base.{
  Bool, true, false, not, ◌&&◌, ◌||◌, Option, none, some, List, [], ◌∷◌, if◌then◌else◌,
}
use lukscryptwalker_csi.Base.Bytes.{Bytes, codes, bytes_eq}
use lukscryptwalker_csi.Base.Dict.{Dict, lookup}

-- clientset.CoreV1().Secrets(namespace).Get(name)
abbrev pub SecretStore : Type 0
SecretStore = Bytes → Bytes → Option (Dict Bytes)

pub record SecretReference : Type 0 where
  pub name : Bytes
  pub namespace : Bytes

pub record SecretParams : Type 0 where
  pub luks_secret : SecretReference
  pub s3_secret : SecretReference
  pub passphrase_key : Bytes

-- DefaultPassphraseKey
abbrev pub default_passphrase_key : Bytes
default_passphrase_key = codes "passphrase"

-- The volume context's value, else the StorageClass's, else `default`.
unfoldable pub param_of : Dict Bytes → Dict Bytes → Bytes → Bytes → Bytes
param_of class context key default = elim (lookup key context) [
  | some value ↦ value
  | none ↦ elim (lookup key class) [ some value ↦ value | none ↦ default ]
]

-- ExtractSecretParams
unfoldable pub extract_secret_params : Dict Bytes → Dict Bytes → SecretParams
extract_secret_params class context =
    let param = λ (key : Bytes). param_of class context key [] in
    record {
      luks_secret = record {
        name = param (codes "csi.storage.k8s.io/node-stage-secret-name");
        namespace = param (codes "csi.storage.k8s.io/node-stage-secret-namespace");
      };
      s3_secret = record {
        name = param (codes "s3-secret-name");
        namespace = param (codes "s3-secret-namespace");
      };
      passphrase_key = param_of class context (codes "passphraseKey") default_passphrase_key;
    }

-- name != "" && namespace != ""
abbrev pub is_complete : SecretReference → Bool
is_complete r = not (bytes_eq r.name []) && not (bytes_eq r.namespace [])

abbrev pub key_or_default : Bytes → Bytes
key_or_default [] = default_passphrase_key
key_or_default (c ∷ key) = c ∷ key

abbrev pub value_in : Bytes → Option (Dict Bytes) → Option Bytes
value_in key none = none
value_in key (some content) = lookup key content

-- fetchPassphrase
unfoldable pub fetch_passphrase : SecretStore → SecretReference → Bytes → Option Bytes
fetch_passphrase store r key = value_in (key_or_default key) (store r.namespace r.name)

-- S3Config, as it is read from a secret
pub record StoredS3 : Type 0 where
  pub bucket : Bytes
  pub region : Bytes
  pub endpoint : Bytes
  pub force_path_style : Bool
  pub access_key_id : Bytes
  pub secret_access_key : Bytes

abbrev pub no_s3 : StoredS3
no_s3 = record {
  bucket = [];
  region = [];
  endpoint = [];
  force_path_style = false;
  access_key_id = [];
  secret_access_key = [];
}

abbrev pub text_or_empty : Option Bytes → Bytes
text_or_empty none = []
text_or_empty (some s) = s

-- The four required entries, and the optional ones.
unfoldable pub s3_of :
    Option Bytes → Option Bytes → Option Bytes → Option Bytes → Dict Bytes → Option StoredS3
s3_of (some bucket) (some region) (some id) (some key) content = some (record {
  bucket = bucket;
  region = region;
  endpoint = text_or_empty (lookup (codes "s3-endpoint") content);
  force_path_style =
      bytes_eq (text_or_empty (lookup (codes "s3-force-path-style") content)) (codes "true");
  access_key_id = id;
  secret_access_key = key;
})
s3_of _ _ _ _ content = none

unfoldable pub s3_in : Option (Dict Bytes) → Option StoredS3
s3_in none = none
s3_in (some content) =
    s3_of (lookup (codes "s3-bucket") content) (lookup (codes "s3-region") content)
      (lookup (codes "s3-access-key-id") content) (lookup (codes "s3-secret-access-key") content)
      content

-- fetchS3Config
unfoldable pub fetch_s3_config : SecretStore → SecretReference → Option StoredS3
fetch_s3_config store r = s3_in (store r.namespace r.name)

-- VolumeSecrets; the names of the secrets are only for log lines
pub record StoredSecrets : Type 0 where
  pub passphrase : Bytes
  pub s3 : StoredS3

unfoldable pub both_fetched : Option Bytes → Option StoredS3 → Option StoredSecrets
both_fetched none s3 = none
both_fetched (some passphrase) none = none
both_fetched (some passphrase) (some s3) = some (record { passphrase = passphrase; s3 = s3 })

-- FetchVolumeSecrets; the store is `none` without a client
unfoldable pub fetch_volume_secrets : Option SecretStore → SecretParams → Option StoredSecrets
fetch_volume_secrets none p = none
fetch_volume_secrets (some store) p =
    both_fetched
      (if is_complete p.luks_secret
        then fetch_passphrase store p.luks_secret p.passphrase_key
        else some [])
      (if is_complete p.s3_secret then fetch_s3_config store p.s3_secret else some no_s3)

-- Validate returns nil
unfoldable pub validate : Bool → StoredSecrets → Bool
validate require_s3 s =
    if bytes_eq s.passphrase []
    then false
    else not (require_s3 && (bytes_eq s.s3.access_key_id [] || bytes_eq s.s3.secret_access_key []))

-- S3ConfigFromSecrets; the map is `none` when it is nil
unfoldable pub s3_config_from_secrets : Option (Dict Bytes) → Option StoredS3
s3_config_from_secrets none = none
s3_config_from_secrets (some content) =
    let text = λ (key : Bytes). text_or_empty (lookup key content) in
    let id = text (codes "s3-access-key-id") in
    let key = text (codes "s3-secret-access-key") in
    if bytes_eq (text (codes "s3-bucket")) [] || bytes_eq id [] || bytes_eq key []
    then none
    else some (record no_s3 {
      bucket = text (codes "s3-bucket");
      region = text (codes "s3-region");
      endpoint = text (codes "s3-endpoint");
      access_key_id = id;
      secret_access_key = key;
    })
