-- ===== src/Secrets/Sourced.antt =====
-- Where a volume's secrets come from.
use lukscryptwalker_csi.Base.{
  ◌≡◌, sym, ap, Bool, true, false, Option, none, some, [], some_injective, if◌then◌else◌,
}
use lukscryptwalker_csi.Base.Bytes.{Bytes, codes}
use lukscryptwalker_csi.Base.Dict.{Dict}
use lukscryptwalker_csi.Secrets.{
  SecretStore, SecretReference, SecretParams, is_complete, value_in, key_or_default,
  fetch_passphrase, StoredS3, no_s3, s3_of, s3_in, fetch_s3_config, StoredSecrets, both_fetched,
  fetch_volume_secrets,
}

-- An entry of the secret that a reference names.
abbrev pub stored : SecretStore → SecretReference → Bytes → Option Bytes
stored store r key = value_in key (store r.namespace r.name)

-- The four entries that S3 needs are the named secret's.
abbrev pub IsStored : SecretStore → SecretReference → StoredS3 → Type 0
IsStored store r s3 =
    (stored store r (codes "s3-bucket") ≡ some s3.bucket)
    × (stored store r (codes "s3-region") ≡ some s3.region)
    × (stored store r (codes "s3-access-key-id") ≡ some s3.access_key_id)
    × (stored store r (codes "s3-secret-access-key") ≡ some s3.secret_access_key)

-- What is fetched for an incomplete reference is nothing.
abbrev pub Sourced : SecretStore → SecretParams → StoredSecrets → Type 0
Sourced store p s =
    ((if is_complete p.luks_secret
        then stored store p.luks_secret (key_or_default p.passphrase_key)
        else some [])
      ≡ some s.passphrase)
    × (if is_complete p.s3_secret then IsStored store p.s3_secret s.s3 else (s.s3 ≡ no_s3))

both-some :
    (o : Option Bytes) (o' : Option StoredS3) (s : StoredSecrets)
    → both_fetched o o' ≡ some s
    → (o ≡ some s.passphrase) × (o' ≡ some s.s3)
unfolding both_fetched
both-some none o' s h = cc
both-some (some passphrase) none s h = cc
both-some (some passphrase) (some s3) s h =
    let same = some_injective _ _ h in
    (ap (λ (x : StoredSecrets). some x.passphrase) same, ap (λ (x : StoredSecrets). some x.s3) same)

s3_of-some :
    (b r i k : Option Bytes) (content : Dict Bytes) (s3 : StoredS3)
    → s3_of b r i k content ≡ some s3
    → (b ≡ some s3.bucket)
      × (r ≡ some s3.region)
      × (i ≡ some s3.access_key_id)
      × (k ≡ some s3.secret_access_key)
unfolding s3_of
s3_of-some none r i k content s3 h = cc
s3_of-some (some b) none i k content s3 h = cc
s3_of-some (some b) (some r) none k content s3 h = cc
s3_of-some (some b) (some r) (some i) none content s3 h = cc
s3_of-some (some b) (some r) (some i) (some k) content s3 h =
    let same = some_injective _ _ h in
    (
      ap (λ (x : StoredS3). some x.bucket) same,
      ap (λ (x : StoredS3). some x.region) same,
      ap (λ (x : StoredS3). some x.access_key_id) same,
      ap (λ (x : StoredS3). some x.secret_access_key) same,
    )

s3_in-some :
    (o : Option (Dict Bytes)) (s3 : StoredS3)
    → s3_in o ≡ some s3
    → (value_in (codes "s3-bucket") o ≡ some s3.bucket)
      × (value_in (codes "s3-region") o ≡ some s3.region)
      × (value_in (codes "s3-access-key-id") o ≡ some s3.access_key_id)
      × (value_in (codes "s3-secret-access-key") o ≡ some s3.secret_access_key)
unfolding s3_in
s3_in-some none s3 h = cc
s3_in-some (some content) s3 h = s3_of-some _ _ _ _ content s3 h

s3-Sourced :
    (store : SecretStore) (r : SecretReference) (s3 : StoredS3) (complete : Bool)
    → (if complete then fetch_s3_config store r else some no_s3) ≡ some s3
    → if complete then IsStored store r s3 else (s3 ≡ no_s3)
unfolding fetch_s3_config
s3-Sourced store r s3 true h = s3_in-some (store r.namespace r.name) s3 h
s3-Sourced store r s3 false h = sym (some_injective _ _ h)

-- Where FetchVolumeSecrets succeeds, the passphrase is the entry of the LUKS secret under the key that the
-- parameters name ("passphrase" where they name none) and bucket, region and both S3 keys are those of the S3
-- secret, each from the namespace and the name that the parameters give; for a reference that lacks one of
-- the two nothing is read, and the values stay empty.
pub fetch_volume_secrets-Sourced :
    (store : SecretStore) (p : SecretParams) (s : StoredSecrets)
    → fetch_volume_secrets (some store) p ≡ some s
    → Sourced store p s
unfolding fetch_volume_secrets fetch_passphrase
fetch_volume_secrets-Sourced store p s h =
    let (passphrase, s3) = both-some _ _ s h in
    (passphrase, s3-Sourced store p.s3_secret s.s3 (is_complete p.s3_secret) s3)
