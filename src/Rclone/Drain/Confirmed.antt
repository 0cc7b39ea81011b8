-- ===== src/Rclone/Drain/Confirmed.antt =====
-- What rclone has answered when a drain is reported complete.
use lukscryptwalker_csi.Base.{
  ℕ, zero, suc, ◌+◌, ◌≡◌, refl, inl, inr, Bool, true, false, not, ◌&&◌, ◌||◌, Option, none, some,
  arith, ltb, leb, ◌==◌, Bool-cases,
}
use lukscryptwalker_csi.Base.Bytes.{Bytes}
use lukscryptwalker_csi.Rclone.Drain.{
  Poll, confirmed, DiskCache, StatsReply, rpc_error, stats, after_reply, poll_once, poll_loop,
  polls_within, poll_interval, is_no_vfs_error, is_ambiguous_vfs_error, shows_empty,
  wait_for_pending_uploads, is_upload_queue_empty, upload_queue_confirmed_empty, flush_wait,
  or_zero, shown_zero,
}
use lukscryptwalker_csi.Rclone.Drain.Termination.{PollResult-cases}

-- The reply is an output of vfs/stats that shows no upload: both counts of its diskCache section are zero or
-- left out, or it has no diskCache section, which the code takes for the same.
abbrev pub NothingShown : StatsReply → Type 0
NothingShown (rpc_error err) = ⊥
NothingShown (stats none) = Unit
NothingShown (stats (some dc)) =
    (or_zero dc.uploads_in_progress ≡ 0) × (or_zero dc.uploads_queued ≡ 0)

shows_empty-NothingShown : (o : Option DiskCache) → shows_empty o ≡ true → NothingShown (stats o)
unfolding shows_empty
shows_empty-NothingShown none h = tt
shows_empty-NothingShown (some dc) h = (ground arith, ground arith)

after_reply-confirmed :
    (later : ℕ) (r : StatsReply) → after_reply later r ≡ confirmed → NothingShown r
unfolding after_reply
after_reply-confirmed later (rpc_error err) h = elim (Bool-cases (is_no_vfs_error err)) [
  | inl e ↦ absurd (ground arith)
  | inr e ↦ elim (Bool-cases (is_ambiguous_vfs_error err)) [
    | inl a ↦ absurd (ground arith)
    | inr a ↦ absurd (ground arith)
  ]
]
after_reply-confirmed later (stats dc) h = elim (Bool-cases (shows_empty dc)) [
  | inl e ↦ shows_empty-NothingShown dc e
  | inr e ↦ absurd (ground arith)
]

poll_once-confirmed :
    (s : Bool) (deadline now : ℕ) (p : Poll)
    → poll_once s deadline now p ≡ confirmed
    → NothingShown p.reply × ((s || p.is_mount_point) ≡ true)
unfolding poll_once
poll_once-confirmed s deadline now p h = elim (Bool-cases (not s && not p.is_mount_point)) [
  | inl e ↦ absurd (ground arith)
  | inr e ↦ elim (Bool-cases (leb deadline (now + p.delay))) [
    | inl l ↦ absurd (ground arith)
    | inr l ↦ (
      after_reply-confirmed (now + p.delay + p.took + poll_interval) p.reply (rw (e, l) at h),
      present s p.is_mount_point e,
    )
  ]
]
  where
    present : (a b : Bool) → (not a && not b) ≡ false → (a || b) ≡ true
    present a b h = ground arith

-- At poll j the volume has a session or its staging path is a mount point, and the reply shows no upload.
abbrev pub ConfirmedAt : Bool → (ℕ → Poll) → ℕ → Type 0
ConfirmedAt has_session world j =
    NothingShown (world j).reply × ((has_session || (world j).is_mount_point) ≡ true)

poll_loop-confirmed :
    (fuel : ℕ) (s : Bool) (deadline : ℕ) (world : ℕ → Poll) (i now : ℕ)
    → poll_loop fuel s deadline world i now ≡ some true
    → (j : ℕ) × ConfirmedAt s world j
unfolding poll_loop
poll_loop-confirmed zero s deadline world i now h = absurd (ground arith)
poll_loop-confirmed (suc fuel) s deadline world i now h = elim (Bool-cases (ltb now deadline)) [
  | inl l ↦ elim (PollResult-cases (poll_once s deadline now (world i))) [
    | inl e ↦
        let (shown, here) = poll_once-confirmed s deadline now (world i) e in (i, (shown, here))
    | inr (inl e) ↦ absurd (ground arith)
    | inr (inr (t, e)) ↦ poll_loop-confirmed fuel s deadline world (suc i) t (rw (l, e) at h)
  ]
  | inr l ↦ absurd (ground arith)
]

-- waitForPendingUploads reports an empty queue only after some poll at which the volume had a session or its
-- staging path was a mount point, and vfs/stats answered, either with a diskCache section in which no count
-- is above zero or with no such section at all. Neither an error nor the end of the budget counts as one, but
-- a reply that lacks the section, or a count, does.
pub wait_for_pending_uploads-confirmed :
    (max_wait : ℕ) (write_back : Bytes) (has_session : Bool) (world : ℕ → Poll) (now : ℕ)
    → wait_for_pending_uploads max_wait write_back has_session world now ≡ some true
    → (j : ℕ) × ConfirmedAt has_session world j
unfolding wait_for_pending_uploads
wait_for_pending_uploads-confirmed zero write_back s world now h = absurd (ground arith)
wait_for_pending_uploads-confirmed (suc n) write_back s world now h =
    poll_loop-confirmed (polls_within (suc n)) s (now + suc n) world 0
      (now + flush_wait write_back (suc n)) h

shown→zero : (o : Option ℕ) → shown_zero o ≡ true → (or_zero o == 0) ≡ true
shown→zero none h = absurd (ground arith)
shown→zero (some n) h = h

-- Where the strictest of the three readings of one vfs/stats reply, the one that allows the cache to be
-- evicted, confirms the queue empty, the other two agree: IsUploadQueueEmpty says so whatever is on disk,
-- and a poll of the drain ends with a confirmation.
pub confirmed_empty-agrees :
    (mp dirty : Bool) (later : ℕ) (reply : StatsReply)
    → upload_queue_confirmed_empty mp reply ≡ true
    → (is_upload_queue_empty mp dirty reply ≡ true) × (after_reply later reply ≡ confirmed)
unfolding upload_queue_confirmed_empty is_upload_queue_empty after_reply shows_empty
confirmed_empty-agrees false dirty later reply h = absurd (ground arith)
confirmed_empty-agrees true dirty later (rpc_error err) h = absurd (ground arith)
confirmed_empty-agrees true dirty later (stats none) h = absurd (ground arith)
confirmed_empty-agrees true dirty later (stats (some dc)) h =
    let f = shown→zero dc.uploads_in_progress in
    let g = shown→zero dc.uploads_queued in
    let both : (or_zero dc.uploads_in_progress == 0 && or_zero dc.uploads_queued == 0) ≡ true =
      ground arith in
    (both, rw both refl)
