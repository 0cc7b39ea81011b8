-- ===== src/Driver/Reconcile.antt =====
-- pkg/driver/node_s3.go: reconcileS3Mount, which heals a stale or missing mount in place, with what it does
-- to each consumer. The host, rclone and the API server are what the world shows.
pub mod Gentle
use lukscryptwalker_csi.Base.{
  ℕ, zero, suc, Bool, true, false, not, ◌&&◌, ◌||◌, Option, none, some, List, [], ◌∷◌, ◌++◌, ltb,
  if◌then◌else◌, is_some,
}
use lukscryptwalker_csi.Base.Bytes.{Bytes, bytes_eq}
use lukscryptwalker_csi.Base.Decimal.{ℤ}
use lukscryptwalker_csi.Base.Dict.{lookup, delete}
use lukscryptwalker_csi.Base.Sets.{insert, remove}
use lukscryptwalker_csi.Rclone.Exposure.{SessionWorld}
use lukscryptwalker_csi.Rclone.Mounting.{Mounter}
use lukscryptwalker_csi.Driver.Backoff.{consumer_restart_allowed}
use lukscryptwalker_csi.Driver.Pods.{
  Pod, PodCall, unbinds, rebinds, is_terminating, delete_pod_by_uid,
}
use lukscryptwalker_csi.Driver.Pods.Healing.{Process, recover_consumer_pod, pod_self_heals}
use lukscryptwalker_csi.Driver.Publish.{
  Liveness, verify_s3_staging_live, UnwindTurn, unmount_host_stack,
}
use lukscryptwalker_csi.Driver.Setup.{MountState, SetupWorld, reexpose_live_session, setup_s3_sync}

-- What ensureStagingServing meets: the staging path's two looks, and whether vol_data.json names the
-- volume; re-exposing its session is what changes the second look.
unfoldable pub ensure_staging_serving : Liveness → Liveness → Bool
unfolding verify_s3_staging_live
ensure_staging_serving first second =
    if verify_s3_staging_live first then true else verify_s3_staging_live second

-- statBounded of a consumer's bind: its device, ENOENT, or another error.
pub data DeviceLook : Type 0 where
  device : Bytes → DeviceLook
  not_published : DeviceLook
  unknown : DeviceLook

-- What one consumer meets: whether its bind's directory is there (it is published), the unwinding of the
-- bind, the two looks of ensureStagingServing, bindMount, the depth at the bind where the table is known,
-- the device of the staging path, and the six looks at the bind's device.
pub record ConsumerWorld : Type 0 where
  pub is_published : Bool
  pub unwinds : ℕ → UnwindTurn
  pub first : Liveness
  pub second : Liveness
  pub bound : Bool
  pub depth : Option ℕ
  pub wanted : Option Bytes
  pub looks : ℕ → DeviceLook
  pub now : ℕ
  pub pods : Option (List Pod)
  pub processes : List Process
  pub killed : ℤ → Bool

-- rebindConsumerMount
unfoldable pub rebind_consumer_mount : ConsumerWorld → Bytes → Bool
unfolding unmount_host_stack ensure_staging_serving
rebind_consumer_mount w pv_name =
    if bytes_eq pv_name []
    then false
    else if not w.is_published
    then true
    else if not (unmount_host_stack w.unwinds)
    then false
    else if not (ensure_staging_serving w.first w.second)
    then false
    else w.bound

-- The loop of consumerMountHealthy with `turns` left, at turn i.
unfoldable pub matches_from : ℕ → Bytes → (ℕ → DeviceLook) → ℕ → Bool
matches_from zero wanted looks i = false
matches_from (suc turns) wanted looks i =
    let rest = matches_from turns wanted looks (suc i) in
    elim (looks i) [
      | not_published ↦ true
      | unknown ↦ rest
      | device dev ↦ if bytes_eq dev wanted then true else rest
    ]

abbrev pub is_stacked : Option ℕ → Bool
is_stacked none = false
is_stacked (some depth) = ltb 1 depth

-- consumerMountHealthy
unfoldable pub consumer_mount_healthy : ConsumerWorld → Bytes → Bool
unfolding matches_from
consumer_mount_healthy w pv_name =
    if bytes_eq pv_name [] || is_stacked w.depth
    then false
    else elim w.wanted [ none ↦ false | some wanted ↦ matches_from 6 wanted w.looks 0 ]

-- unbindTerminatingConsumer
unfoldable pub unbind_terminating : ConsumerWorld → Bytes → Bytes → List PodCall
unbind_terminating w uid pv_name =
    if bytes_eq pv_name [] || not w.is_published then [] else unbinds uid ∷ []

-- The loop's body for one consumer, where the volume has been mounted again; `budget` is restartBudget.
unfoldable pub treat_consumer : ConsumerWorld → Bool → Bytes → Bytes → Pod → List PodCall
treat_consumer w budget claim pv_name p =
    let rebound = rebind_consumer_mount w pv_name in
    let tried = rebinds p.uid in
    if is_terminating p
    then unbind_terminating w p.uid pv_name ++ delete_pod_by_uid w.now w.pods p.uid
    else if pod_self_heals p claim && consumer_mount_healthy w pv_name
    then tried ∷ []
    else if not budget
    then tried ∷ []
    else if not rebound
    then tried ∷ delete_pod_by_uid w.now w.pods p.uid
    else tried ∷ recover_consumer_pod w.now w.processes w.killed w.pods p

-- restartPodsWithStaleS3Mount: for each pod's directory that holds the volume with a bind, its UID; the
-- clock and the pods are as each deletion sees them
unfoldable pub restart_pods_with_stale_mount :
    (Bytes → ℕ) → (Bytes → Option (List Pod)) → List Bytes → List PodCall
restart_pods_with_stale_mount now pods [] = []
restart_pods_with_stale_mount now pods (uid ∷ uids) =
    unbinds uid
    ∷ (delete_pod_by_uid (now uid) (pods uid) uid ++ restart_pods_with_stale_mount now pods uids)

-- What a reconcile does besides its consumers.
pub data ReconcileCall : Type 0 where
  stops_monitor : ReconcileCall
  ends_sessions : Bytes → ReconcileCall
  aborts_connection : ReconcileCall
  detaches_staging : ReconcileCall
  makes_staging : ReconcileCall
  removes_staging : ReconcileCall

-- What one reconcile meets: the live session where the mount is missing, the claim and the consumers that
-- the API resolves, the setup, the registration's health and the clock for the restart budget, whether
-- the host still mounts something at the staging path, and each consumer.
pub record ReconcileWorld : Type 0 where
  pub session : SessionWorld
  pub claim : Bytes
  pub pv_name : Bytes
  pub consumers : List Pod
  pub setup : SetupWorld
  pub registered : Bool
  pub now : ℕ
  pub is_mount_point : Bool
  pub bound_pods : List Bytes
  pub delete_now : Bytes → ℕ
  pub delete_pods : Bytes → Option (List Pod)
  pub at : Pod → ConsumerWorld

pub record Reconciled : Type 0 where
  pub calls : List ReconcileCall
  pub remounted : Bool
  pub treated : List (Pod × List PodCall)
  pub restarted_all : List PodCall
  pub state : MountState

unfoldable pub treat_consumers : ReconcileWorld → Bool → List Pod → List (Pod × List PodCall)
treat_consumers w budget [] = []
treat_consumers w budget (p ∷ ps) =
    (p, treat_consumer (w.at p) budget w.claim w.pv_name p) ∷ treat_consumers w budget ps

abbrev pub old_monitor : Option Mounter → List ReconcileCall
old_monitor none = []
old_monitor (some m) = stops_monitor ∷ []

abbrev pub old_session : Option Mounter → Bytes
old_session none = []
old_session (some m) = m.session.session_path

-- The calls between dropping the old manager and the setup.
abbrev pub teardown_calls : Option Mounter → List ReconcileCall
teardown_calls old =
    old_monitor old
    ++ (ends_sessions (old_session old) ∷ aborts_connection ∷ detaches_staging ∷ makes_staging ∷ [])

-- markVolumeSetupComplete, deferred
abbrev pub setup_complete : Bytes → MountState → MountState
setup_complete v s = record s { in_setup = remove v s.in_setup }

-- The end of a reconcile: after the volume has been mounted again, or where that has failed.
unfoldable pub after_setup :
    ReconcileWorld → Bytes → List ReconcileCall → Bool × MountState → Reconciled
after_setup w v calls (true, s) =
    let (budget, restarts) = consumer_restart_allowed w.registered v w.now s.restarts in
    record {
      calls = calls;
      remounted = true;
      treated = treat_consumers w budget w.consumers;
      restarted_all = [];
      state = setup_complete v (record s { restarts = restarts });
    }
after_setup w v calls (false, s) =
    let (budget, restarts) = consumer_restart_allowed w.registered v w.now s.restarts in
    let dropped : MountState = record s { managers = delete v s.managers; restarts = restarts } in
    record {
      calls =
          calls
          ++ (old_monitor (lookup v s.managers)
              ++ (if budget && not w.is_mount_point then removes_staging ∷ [] else []));
      remounted = false;
      treated = [];
      restarted_all =
          if budget
          then restart_pods_with_stale_mount w.delete_now w.delete_pods w.bound_pods
          else [];
      state = setup_complete v dropped;
    }

-- reconcileS3Mount past the live session
unfoldable pub remount : ReconcileWorld → Bytes → Bytes → MountState → Option Reconciled
remount w v staging s =
    let old = lookup v s.managers in
    let dropped : MountState = record s { managers = delete v s.managers } in
    elim (setup_s3_sync w.setup v staging dropped) [
      | none ↦ none
      | some r ↦ some (after_setup w v (teardown_calls old) r)
    ]

abbrev pub untouched_by : Bytes → MountState → Reconciled
untouched_by v s = record {
  calls = [];
  remounted = false;
  treated = [];
  restarted_all = [];
  state = setup_complete v s;
}

-- reconcileS3Mount; `none` is a wait that is out of fuel
unfoldable pub reconcile_s3_mount :
    ReconcileWorld → Bytes → Bytes → Bool → MountState → Option Reconciled
reconcile_s3_mount w v staging missing s =
    let marked : MountState = record s { in_setup = insert v s.in_setup } in
    if missing
    then elim (reexpose_live_session v staging w.session (lookup v s.managers)) [
      | none ↦ none
      | some true ↦ some (untouched_by v marked)
      | some false ↦ remount w v staging marked
    ]
    else remount w v staging marked
