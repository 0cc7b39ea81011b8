-- ===== src/Driver/Stranded/Recovered.antt =====
-- The sweep for stranded volumes against what the disk holds.
use lukscryptwalker_csi.Base.{◌≡◌, ◌≢◌, ap, ◌∙◌, ◌&&◌, ◌||◌, some, List, []}
use lukscryptwalker_csi.Base.Bytes.{Bytes}
use lukscryptwalker_csi.Base.Sets.{member}
use lukscryptwalker_csi.Rclone.CacheDir.{
  MetaEntry, listed, has_unuploaded_data, volumes_with_unuploaded_data,
}
use lukscryptwalker_csi.Rclone.CacheDir.Scan.{volumes_with_unuploaded_data-member}
use lukscryptwalker_csi.Driver.Drains.{is_background_draining}
use lukscryptwalker_csi.Driver.Stranded.{
  RecoveryWorld, Recovery, StagingListing, staged_volume_ids, recover_stranded_volumes,
}
use lukscryptwalker_csi.Driver.Stranded.Exact.{
  may_recover, recover_each-member, recover_each-draining,
}

-- Where the caches and kubelet's staging can be listed, a sweep makes an attempt for exactly the volumes
-- of which HasUnuploadedData says that some generation's cache holds unuploaded writes and which kubelet
-- does not stage here, that are neither set up, drained nor mounted now, were not attempted in the last
-- five minutes and are not forced off by an operator. Each of them whose PV is readable then holds its
-- drain slot, and no other volume's slot changes.
pub recover_stranded_volumes-exact :
    (w : RecoveryWorld) (es : List MetaEntry) (staging : StagingListing) (staged : List Bytes)
    (s : Recovery) (v : Bytes)
    → v ≢ []
    → staged_volume_ids staging ≡ some staged
    → (member v (recover_stranded_volumes w (listed es) staging s).0
        ≡ (has_unuploaded_data (listed es) v && may_recover w staged v s))
      × (is_background_draining v (recover_stranded_volumes w (listed es) staging s).1.node.drains
          ≡ (is_background_draining v s.node.drains
              || ((w.at v).context_readable
                  && (has_unuploaded_data (listed es) v && may_recover w staged v s))))
unfolding recover_stranded_volumes
recover_stranded_volumes-exact w es staging staged s v named known =
    let stranded = volumes_with_unuploaded_data (listed es) in
    let dirty = volumes_with_unuploaded_data-member v es named in
    (
      rw known (
          recover_each-member w staged v stranded s
          ∙ ap (λ b. b && may_recover w staged v s) dirty),
      rw known (
          recover_each-draining w staged v stranded s
          ∙ ap
              (λ b.
                is_background_draining v s.node.drains
                || ((w.at v).context_readable && (b && may_recover w staged v s)))
              dirty),
    )
