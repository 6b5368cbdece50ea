-- ===== src/Presence/Events.antt =====
-- A subscriber's reading of the presence events: it follows one key, and refuses an event that
-- does not change what it knows (a second appearance, a disappearance of what is not there).
use tag_pulse.Prelude.{
  ℤ, ◌≡◌, refl, Bool, true, false, ◌&&◌, Option, none, some, List, [], ◌∷◌, ◌++◌, map, arith,
  if◌then◌else◌, contains, Unique, ◌==◌, pair_eq, list_eq, nat_eq, list_beq_iff,
}
use tag_pulse.Wire.Epc.{Text}
use tag_pulse.Presence.{
  Scope, PresenceKey, Topic, tag_appeared, tag_disappeared, Source, PresenceEvent, emit,
}

-- One event about the key that is followed.
abbrev pub follow : Topic → Bool → Option Bool
follow tag_appeared true = none
follow tag_appeared false = some true
follow tag_disappeared true = some false
follow tag_disappeared false = none

-- What the subscriber knows after a log, `none` if it had to refuse an event.
unfoldable pub replay : Bool → List PresenceEvent → PresenceKey → Option Bool
replay known [] key = some known
replay known (event ∷ log) key =
    elim (if (event.scope, event.epc) == key then follow event.topic known else some known) [
      | none ↦ none
      | some now ↦ replay now log key
    ]

-- Reading goes on where the first log ended.
abbrev pub resume : Option Bool → List PresenceEvent → PresenceKey → Option Bool
resume none log key = none
resume (some known) log key = replay known log key

pub replay-append :
    (known : Bool) (first second : List PresenceEvent) (key : PresenceKey)
    → replay known (first ++ second) key ≡ resume (replay known first key) second key
unfolding replay
replay-append known [] second key = refl
replay-append known (event ∷ first) second key =
    ground (arith, replay-append true first second key, replay-append false first second key)

-- A batch of events of one kind, each EPC once, is read as long as every listed key changes.
pub replay-emit :
    (topic : Topic) (scope : Scope) (at : ℤ) (source : Source) (epcs : List Text) (known : Bool)
    (key : PresenceKey)
    → Unique epcs
    → replay known (map (emit topic scope at source) epcs) key
      ≡ (if scope == key.0 && contains key.1 epcs then follow topic known else some known)
unfolding replay
replay-emit topic scope at source [] known key u = ground arith
replay-emit topic scope at source (epc ∷ epcs) known key u = ground (
  arith,
  list_beq_iff epc key.1,
  list_beq_iff key.1 epc,
  replay-emit topic scope at source epcs true key,
  replay-emit topic scope at source epcs false key,
)
