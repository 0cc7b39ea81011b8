-- ===== src/Rclone/Drain/Termination.antt =====
-- The drain's loop and its budget.
use lukscryptwalker_csi.Base.{
  ℕ, zero, suc, ◌+◌, ◌-◌, ◌*◌, ◌≤◌, ◌≡◌, refl, ◌⊎◌, inl, inr, Bool, true, false, not, ◌&&◌, some,
  arith, ltb→lt, ltb, leb, Bool-cases,
}
use lukscryptwalker_csi.Base.Bytes.{Bytes}
use lukscryptwalker_csi.Rclone.Drain.{
  Poll, PollResult, confirmed, gave_up, again, StatsReply, rpc_error, stats, after_reply, poll_once,
  poll_loop, polls_within, poll_interval, is_no_vfs_error, is_ambiguous_vfs_error, shows_empty,
  wait_for_pending_uploads, flush_wait,
}

-- A poll that is to be repeated has taken two seconds.
abbrev Sleeps : ℕ → PollResult → Type 0
Sleeps now confirmed = Unit
Sleeps now gave_up = Unit
Sleeps now (again later) = now + poll_interval ≤ later

after_reply-Sleeps :
    (now later : ℕ) (r : StatsReply)
    → now + poll_interval ≤ later
    → Sleeps now (after_reply later r)
unfolding after_reply
after_reply-Sleeps now later (rpc_error err) h = elim (Bool-cases (is_no_vfs_error err)) [
  | inl e ↦ rw e tt
  | inr e ↦ elim (Bool-cases (is_ambiguous_vfs_error err)) [
    | inl a ↦ rw (e, a) tt
    | inr a ↦ rw (e, a) h
  ]
]
after_reply-Sleeps now later (stats dc) h = elim (Bool-cases (shows_empty dc)) [
  | inl e ↦ rw e tt
  | inr e ↦ rw e h
]

poll_once-Sleeps :
    (s : Bool) (deadline now : ℕ) (p : Poll) → Sleeps now (poll_once s deadline now p)
unfolding poll_once
poll_once-Sleeps s deadline now p = elim (Bool-cases (not s && not p.is_mount_point)) [
  | inl e ↦ rw e tt
  | inr e ↦ elim (Bool-cases (leb deadline (now + p.delay))) [
    | inl l ↦ rw (e, l) tt
    | inr l ↦
        rw (e, l)
          (after_reply-Sleeps now (now + p.delay + p.took + poll_interval) p.reply (omega arith))
  ]
]

pub PollResult-cases :
    (r : PollResult) → (r ≡ confirmed) ⊎ (r ≡ gave_up) ⊎ ((t : ℕ) × (r ≡ again t))
PollResult-cases confirmed = inl refl
PollResult-cases gave_up = inr (inl refl)
PollResult-cases (again t) = inr (inr (t, refl))

poll_loop-returns :
    (fuel : ℕ) (s : Bool) (deadline : ℕ) (world : ℕ → Poll) (i now : ℕ)
    → deadline - now + poll_interval ≤ poll_interval * fuel
    → (b : Bool) × (poll_loop fuel s deadline world i now ≡ some b)
unfolding poll_loop
poll_loop-returns zero s deadline world i now h = absurd (omega arith)
poll_loop-returns (suc fuel) s deadline world i now h =
    let sleeps = poll_once-Sleeps s deadline now (world i) in
    elim (Bool-cases (ltb now deadline)) [
      | inl l ↦ elim (PollResult-cases (poll_once s deadline now (world i))) [
        | inl e ↦ (true, rw (l, e) refl)
        | inr (inl e) ↦ (false, rw (l, e) refl)
        | inr (inr (t, e)) ↦
            let slept : now + poll_interval ≤ t = rw e at sleeps in
            let rest =
              poll_loop-returns fuel s deadline world (suc i) t
                (let before = ltb→lt now deadline l in omega arith) in
            (rest.0, rw (l, e) rest.1)
      ]
      | inr l ↦ (false, rw l refl)
    ]

enough_polls : (w : ℕ) → w + poll_interval ≤ poll_interval * polls_within w
unfolding polls_within
enough_polls w = omega arith

-- waitForPendingUploads returns, whatever the world shows and however long its calls take: the polls
-- that fit into the budget are enough.
pub wait_for_pending_uploads-returns :
    (max_wait : ℕ) (write_back : Bytes) (has_session : Bool) (world : ℕ → Poll) (now : ℕ)
    → (b : Bool) × (wait_for_pending_uploads max_wait write_back has_session world now ≡ some b)
unfolding wait_for_pending_uploads
wait_for_pending_uploads-returns zero write_back s world now = (false, refl)
wait_for_pending_uploads-returns (suc n) write_back s world now =
    let enough = enough_polls (suc n) in
    poll_loop-returns (polls_within (suc n)) s (now + suc n) world 0
      (now + flush_wait write_back (suc n)) (omega (arith, enough))
