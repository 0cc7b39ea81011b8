-- ===== src/Tests/Credentials.antt =====
-- The theorem on secrets at a concrete store.
use lukscryptwalker_csi.Base.{refl, none, some, [], ◌∷◌, if◌then◌else◌}
use lukscryptwalker_csi.Base.Bytes.{Bytes, codes, bytes_eq}
use lukscryptwalker_csi.Base.Dict.{Dict, lookup}
use lukscryptwalker_csi.Secrets.{
  SecretStore, StoredSecrets, extract_secret_params, fetch_volume_secrets, no_s3, param_of,
  fetch_passphrase, fetch_s3_config, s3_in, s3_of, both_fetched,
}
use lukscryptwalker_csi.Secrets.Sourced.{Sourced, fetch_volume_secrets-Sourced}

abbrev s3_content : Dict Bytes
s3_content =
    (codes "s3-bucket", codes "b")
    ∷ (codes "s3-region", codes "r")
    ∷ (codes "s3-access-key-id", codes "i")
    ∷ (codes "s3-secret-access-key", codes "k")
    ∷ (codes "passphrase", codes "p")
    ∷ []

abbrev store : SecretStore
store namespace name = if bytes_eq name (codes "all") then some s3_content else none

-- The StorageClass names the secrets, and the volume context another LUKS secret's name.
abbrev class : Dict Bytes
class =
    (codes "csi.storage.k8s.io/node-stage-secret-name", codes "gone")
    ∷ (codes "csi.storage.k8s.io/node-stage-secret-namespace", codes "ns")
    ∷ (codes "s3-secret-name", codes "all")
    ∷ (codes "s3-secret-namespace", codes "ns")
    ∷ []

abbrev context : Dict Bytes
context = (codes "csi.storage.k8s.io/node-stage-secret-name", codes "all") ∷ []

abbrev fetched : StoredSecrets
fetched = record {
  passphrase = codes "p";
  s3 = record no_s3 {
    bucket = codes "b";
    region = codes "r";
    access_key_id = codes "i";
    secret_access_key = codes "k";
  };
}

fetch_volume_secrets-Sourced_example : Sourced store (extract_secret_params class context) fetched
unfolding extract_secret_params param_of fetch_volume_secrets both_fetched fetch_passphrase
    fetch_s3_config s3_in s3_of lookup bytes_eq
fetch_volume_secrets-Sourced_example =
    fetch_volume_secrets-Sourced store (extract_secret_params class context) fetched refl
