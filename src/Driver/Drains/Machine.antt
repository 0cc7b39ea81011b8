-- ===== src/Driver/Drains/Machine.antt =====
-- A machine of four phases for the drain slot of one volume, and what an operation does to the slot's flags.
use lukscryptwalker_csi.Base.{
  ◌≡◌, refl, ap, ◌∙◌, Bool, true, false, not, ◌&&◌, ◌||◌, List, [], ◌∷◌, if◌then◌else◌,
}
use lukscryptwalker_csi.Base.Bytes.{Bytes, bytes_eq}
use lukscryptwalker_csi.Base.Sets.{member, insert, remove, member-insert, member-remove}
use lukscryptwalker_csi.Driver.Drains.{
  Drains, DrainEvent, starts, finishes, forgets, clears, restarts, disk_turns, step,
  start_background_drain, save_drain_pending, clear_drain_pending,
}

-- `idle`: no slot, no record, no marker. `draining`: the slot is taken. `owing`: a drain that did not complete
-- is on record. `taken_over`: a setup has deleted that record, and the marker is still on disk.
pub data Phase : Type 0 where
  idle : Phase
  draining : Phase
  owing : Phase
  taken_over : Phase

abbrev pub is_idle : Phase → Bool
is_idle idle = true
is_idle _ = false

-- What an event of its own volume does to a phase; a restart stops the upload.
unfoldable pub next : Phase → DrainEvent → Phase
next p (starts v) = draining
next p (finishes v true) = idle
next p (finishes v false) = owing
next idle (forgets v) = idle
next draining (forgets v) = draining
next p (forgets v) = taken_over
next draining (clears v) = draining
next owing (clears v) = owing
next p (clears v) = idle
next idle restarts = idle
next p restarts = owing
next p (disk_turns works) = p

abbrev pub concerns : Bytes → DrainEvent → Bool
concerns v (starts w) = bytes_eq v w
concerns v (finishes w b) = bytes_eq v w
concerns v (forgets w) = bytes_eq v w
concerns v (clears w) = bytes_eq v w
concerns v restarts = true
concerns v (disk_turns works) = true

unfoldable pub phases : Bytes → Phase → List DrainEvent → Phase
phases v p [] = p
phases v p (e ∷ es) = phases v (if concerns v e then next p e else p) es

-- Of whether the volume is in backgroundDrains, in pendingDrains, and marked on disk.
abbrev pub phase_by : Bool → Bool → Bool → Phase
phase_by true p m = draining
phase_by false true m = owing
phase_by false false true = taken_over
phase_by false false false = idle

abbrev pub phase_of : Bytes → Drains → Phase
phase_of v s = phase_by (member v s.background) (member v s.pending) (member v s.markers)

-- The file system of the markers works, and no marker of v is cleared while v drains or is on record.
abbrev pub keeps_order : Bytes → Drains → DrainEvent → Bool
keeps_order v s (clears w) = not (bytes_eq v w && (member v s.background || member v s.pending))
keeps_order v s (disk_turns works) = works
keeps_order v s _ = true

unfoldable pub is_orderly : Bytes → Drains → List DrainEvent → Bool
is_orderly v s [] = true
is_orderly v s (e ∷ es) = let rest = is_orderly v (step s e) es in keeps_order v s e && rest

-- A volume that drains or is on record is marked.
abbrev pub IsSound : Bool → Bool → Bool → Type 0
IsSound b p m = ((b || p) && not m) ≡ false

abbrev pub Marked : Bytes → Drains → Type 0
Marked v s =
    (s.disk_takes ≡ true)
    × IsSound (member v s.background) (member v s.pending) (member v s.markers)

abbrev pub Refines : Bytes → Drains → DrainEvent → Type 0
Refines v s e =
    (phase_of v (step s e) ≡ (if concerns v e then next (phase_of v s) e else phase_of v s))
    × Marked v (step s e)

pub if_true : (b : Bool) (x y : List Bytes) → b ≡ true → (if b then x else y) ≡ x
if_true true x y h = refl
if_true false x y h = cc

-- The flags of v after a step are these.
pub flags-Refines :
    (v : Bytes) (s : Drains) (e : DrainEvent) (b p m : Bool)
    → member v (step s e).background ≡ b
    → member v (step s e).pending ≡ p
    → member v (step s e).markers ≡ m
    → (step s e).disk_takes ≡ true
    → phase_by b p m ≡ (if concerns v e then next (phase_of v s) e else phase_of v s)
    → IsSound b p m
    → Refines v s e
flags-Refines v s e b p m eb ep em t same sound = (rw (eb, ep, em) same, (t, rw (eb, ep, em) sound))

pub start_taken : (w : Bytes) (s : Drains) → member w s.background ≡ true → step s (starts w) ≡ s
unfolding step start_background_drain
start_taken w s b = rw (b, step) refl

pub start_free :
    (w : Bytes) (s : Drains)
    → member w s.background ≡ false
    → step s (starts w) ≡ save_drain_pending w (record s { background = insert w s.background })
unfolding step start_background_drain
start_free w s b = rw (b, step) refl

pub sound_marked : (p m : Bool) → IsSound true p m → m ≡ true
sound_marked p true h = refl
sound_marked p false h = cc

pub saved :
    (v w : Bytes) (s : Drains)
    → s.disk_takes ≡ true
    → member v (save_drain_pending w s).markers ≡ (bytes_eq v w || member v s.markers)
unfolding save_drain_pending
saved v w s t =
    ap (member v) (if_true s.disk_takes (insert w s.markers) s.markers t)
    ∙ member-insert v w s.markers

pub cleared :
    (v w : Bytes) (s : Drains)
    → s.disk_takes ≡ true
    → member v (clear_drain_pending w s).markers ≡ (not (bytes_eq v w) && member v s.markers)
unfolding clear_drain_pending
cleared v w s t =
    ap (member v) (if_true s.disk_takes (remove w s.markers) s.markers t)
    ∙ member-remove v w s.markers
