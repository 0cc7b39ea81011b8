-- ===== src/Driver/Stranded/Exact.antt =====
-- Which volumes are recovered, and what that does.
use lukscryptwalker_csi.Base.{
  ◌≡◌, refl, sym, ap, ◌∙◌, inl, inr, Bool, true, false, not, ◌&&◌, ◌||◌, List, [], ◌∷◌, arith,
  Bool-cases, is_some, or_false, or_comm, and_false,
}
use lukscryptwalker_csi.Base.Bytes.{Bytes, bytes_eq, bytes_eq→eq}
use lukscryptwalker_csi.Base.Dict.{lookup, put, lookup-put}
use lukscryptwalker_csi.Base.Sets.{member, member-insert, member-eq}
use lukscryptwalker_csi.Driver.Drains.{
  Drains, is_background_draining, start_background_drain, save_drain_pending,
}
use lukscryptwalker_csi.Driver.Unstage.{
  force_unstage_requested, Node, UnstageWorld, resume_stranded_drain,
}
use lukscryptwalker_csi.Driver.Stranded.{
  is_recent, RecoveryWorld, Recovery, is_left_alone, recover_volume, recover_each, drain_mount,
}

own_step :
    {r d : Bool} (d0 c m k : Bool)
    → r ≡ (d || (c && (m && k)))
    → d ≡ (d0 || (c && true))
    → r ≡ (d0 || (c && true))
own_step d0 true m k e f = ground arith
own_step d0 false m k e f = ground arith

start-draining :
    (v other : Bytes) (d : Drains)
    → is_background_draining other (start_background_drain v d).1
      ≡ (is_background_draining other d || bytes_eq other v)
unfolding start_background_drain is_background_draining save_drain_pending
start-draining v other d = elim (Bool-cases (member v d.background)) [
  | inl m ↦ elim (Bool-cases (bytes_eq other v)) [
    | inl e ↦
        let here : member other d.background ≡ true = member-eq other v d.background e ∙ m in
        simp (m, e, here)
    | inr e ↦ simp (m, e, or_false)
  ]
  | inr m ↦
      let added = member-insert other v d.background in
      simp m (added ∙ or_comm (bytes_eq other v) (member other d.background))
]

-- resumeStrandedDrain claims the slot of its own volume, where the PV is readable, and touches nothing else.
resume-draining :
    (w : UnstageWorld) (v other : Bytes) (n : Node)
    → is_background_draining other (resume_stranded_drain w v (drain_mount v) n).1.drains
      ≡ (is_background_draining other n.drains || (w.context_readable && bytes_eq other v))
unfolding resume_stranded_drain
resume-draining w v other n = elim (Bool-cases w.context_readable) [
  | inl c ↦ simp c (start-draining v other n.drains)
  | inr c ↦ simp (c, or_false)
]

resume-managers :
    (w : UnstageWorld) (v : Bytes) (n : Node)
    → (resume_stranded_drain w v (drain_mount v) n).1.managers ≡ n.managers
unfolding resume_stranded_drain
resume-managers w v n = elim (Bool-cases w.context_readable) [ inl c ↦ simp c | inr c ↦ simp c ]

module _ (w : RecoveryWorld) (staged : List Bytes) where
  -- The loop may attempt a recovery of a volume that kubelet does not stage, that is neither set up, drained
  -- nor mounted now, that was not attempted in the last five minutes and that no operator forces off.
  abbrev pub may_recover : Bytes → Recovery → Bool
  may_recover v s =
      not (member v staged)
      && (not (member v w.in_setup)
          && (not (is_background_draining v s.node.drains)
              && (not (is_some (lookup v s.node.managers))
                  && (not (is_recent (lookup v s.retry) (w.now v))
                      && not (force_unstage_requested (w.at v).client (w.at v).pv)))))

  is_left_alone-may_recover :
      (v : Bytes) (s : Recovery) → is_left_alone w staged v s ≡ not (may_recover v s)
  unfolding is_left_alone
  is_left_alone-may_recover v s = ground arith

  may_recover-same :
      (v : Bytes) (s t : Recovery)
      → is_background_draining v t.node.drains ≡ is_background_draining v s.node.drains
      → t.node.managers ≡ s.node.managers
      → lookup v t.retry ≡ lookup v s.retry
      → may_recover v t ≡ may_recover v s
  may_recover-same v s t drains managers retry = simp (drains, managers, retry)

  module _ (v other : Bytes) (s : Recovery) where
    abbrev resumed : Recovery
    resumed = record {
      node = (resume_stranded_drain (w.at v) v (drain_mount v) s.node).1;
      retry = put v (w.now v) s.retry;
    }

    recovers : is_left_alone w staged v s ≡ false → recover_volume w staged v s ≡ (true, resumed)
    unfolding recover_volume
    recovers l = rw l refl

    leaves : is_left_alone w staged v s ≡ true → recover_volume w staged v s ≡ (false, s)
    unfolding recover_volume
    leaves l = rw l refl

    recover_volume-other :
        bytes_eq other v ≡ false
        → may_recover other (recover_volume w staged v s).1 ≡ may_recover other s
    recover_volume-other apart =
        let drains = resume-draining (w.at v) v other s.node in
        let times = lookup-put other v (w.now v) s.retry in
        elim (Bool-cases (is_left_alone w staged v s)) [
          | inl l ↦ ap (λ r. may_recover other r.1) (leaves l)
          | inr l ↦
              ap (λ r. may_recover other r.1) (recovers l)
              ∙ may_recover-same other s resumed (drains ∙ simp (apart, and_false, or_false))
                  (resume-managers (w.at v) v s.node) (times ∙ simp apart)
        ]

    recover_volume-draining :
        is_background_draining other (recover_volume w staged v s).1.node.drains ≡ (
          is_background_draining other s.node.drains
          || ((w.at v).context_readable && (may_recover v s && bytes_eq other v)))
    recover_volume-draining =
        let drains = resume-draining (w.at v) v other s.node in
        let spec = is_left_alone-may_recover v s in
        elim (Bool-cases (may_recover v s)) [
          | inl m ↦
              ap (λ r. is_background_draining other r.1.node.drains) (recovers (spec ∙ ap not m))
              ∙ (drains
                  ∙ ap
                      (λ b.
                        is_background_draining other s.node.drains
                        || ((w.at v).context_readable && (b && bytes_eq other v)))
                      (sym m))
          | inr m ↦
              ap (λ r. is_background_draining other r.1.node.drains) (leaves (spec ∙ ap not m))
              ∙ (sym (or_false (is_background_draining other s.node.drains))
                  ∙ ap (λ b. is_background_draining other s.node.drains || b)
                      (sym (and_false (w.at v).context_readable))
                  ∙ ap
                      (λ b.
                        is_background_draining other s.node.drains
                        || ((w.at v).context_readable && (b && bytes_eq other v)))
                      (sym m))
        ]

  -- The volumes attempted, read off the state that the loop starts in.
  pub recover_each-member :
      (x : Bytes) (vs : List Bytes) (s : Recovery)
      → member x (recover_each w staged vs s).0 ≡ (member x vs && may_recover x s)
  unfolding recover_each member
  recover_each-member x [] s = refl
  recover_each-member x (v ∷ vs) s =
      let rest = recover_each-member x vs (recover_volume w staged v s).1 in
      let spec = is_left_alone-may_recover v s in
      elim (Bool-cases (bytes_eq x v)) [
        | inl e ↦
            let same : may_recover x s ≡ may_recover v s =
              ap (λ z. may_recover z s) (bytes_eq→eq x v e) in
            elim (Bool-cases (may_recover v s)) [
              | inl m ↦
                  let tried = ap (λ r. r.0) (recovers v x s (spec ∙ ap not m)) in
                  simp (tried, e, same, m)
              | inr m ↦
                  let left = leaves v x s (spec ∙ ap not m) in
                  rw left ((rw left at rest) ∙ simp (same, m, and_false))
            ]
        | inr e ↦
            let kept = recover_volume-other v x s e in
            elim (Bool-cases (recover_volume w staged v s).0) [
              | inl a ↦ simp (a, e, rest, kept)
              | inr a ↦ simp (a, e, rest, kept)
            ]
      ]

  pub recover_each-draining :
      (x : Bytes) (vs : List Bytes) (s : Recovery)
      → is_background_draining x (recover_each w staged vs s).1.node.drains ≡ (
          is_background_draining x s.node.drains
          || ((w.at x).context_readable && (member x vs && may_recover x s)))
  unfolding recover_each member
  recover_each-draining x [] s = simp (and_false, or_false)
  recover_each-draining x (v ∷ vs) s =
      let rest = recover_each-draining x vs (recover_volume w staged v s).1 in
      let first = recover_volume-draining v x s in
      let spec = is_left_alone-may_recover v s in
      elim (Bool-cases (bytes_eq x v)) [
        | inl e ↦
            let same : may_recover x s ≡ may_recover v s =
              ap (λ z. may_recover z s) (bytes_eq→eq x v e) in
            let context : (w.at x).context_readable ≡ (w.at v).context_readable =
              ap (λ z. (w.at z).context_readable) (bytes_eq→eq x v e) in
            elim (Bool-cases (may_recover v s)) [
              | inl m ↦
                  own_step (is_background_draining x s.node.drains) (w.at x).context_readable
                    (member x vs) (may_recover x (recover_volume w staged v s).1) rest
                    (first ∙ simp (e, m, ← context))
                  ∙ simp (e, same, m)
              | inr m ↦
                  let left = leaves v x s (spec ∙ ap not m) in
                  rw left ((rw left at rest) ∙ simp (same, m, and_false))
            ]
        | inr e ↦
            let kept = recover_volume-other v x s e in
            let settled = first ∙ simp (e, and_false, or_false) in
            rest
            ∙ (ap
                  (λ b.
                    b
                    || ((w.at x).context_readable
                        && (member x vs && may_recover x (recover_volume w staged v s).1)))
                  settled
                ∙ (ap
                      (λ b.
                        is_background_draining x s.node.drains
                        || ((w.at x).context_readable && (member x vs && b)))
                      kept
                    ∙ simp e))
      ]
