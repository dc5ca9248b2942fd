-- ===== src/FileMap/Threads/Guarded.antt =====
-- What the locks of the entries guarantee to the functions that run under them.
use makisu.Base.{ℕ, true, ◌≡◌, ◌≢◌, arith, some, [], Bytes, lookup}
use makisu.FileMap.{Slot, mem}
use makisu.FileMap.Threads.{System, Reach, idle, at_start, and_step}
use makisu.FileMap.Threads.Older.{IsOlder, Step-IsOlder}
use makisu.FileMap.Threads.Exclusive.{IsExclusive, Step-IsExclusive}
use makisu.FileMap.Threads.Present.{IsPresent, Step-IsPresent}

-- What holds of all goroutines together.
record IsGuarded (s : System) : Type 0 where
  older : IsOlder s
  exclusive : IsExclusive s
  present : IsPresent s

Reach-IsGuarded : {s s' : System} → IsGuarded s → Reach s s' → IsGuarded s'
Reach-IsGuarded g at_start = g
Reach-IsGuarded g (and_step r step) =
    let before = Reach-IsGuarded g r in
    record {
      older = Step-IsOlder step before.older;
      exclusive = Step-IsExclusive step before.older before.exclusive;
      present = Step-IsPresent step before.exclusive before.present;
    }

-- The map as it is made, with no call running.
abbrev pub start : ℕ → ℕ → (ℕ → Slot) → System
start size time_resolution entries = record {
  fm = record {
    size = size;
    time_resolution = time_resolution;
    queue = [];
    elements = [];
    entries = entries;
  };
  next = 0;
  places = λ t. idle;
}

nothing-looked_up : (name : Bytes) (i : ℕ) → lookup {V = ℕ} name [] ≢ some i
unfolding lookup
nothing-looked_up name i h = ground (arith, h)

nothing-queued : (i : ℕ) → mem i [] ≡ true → ⊥
unfolding mem
nothing-queued i h = ground (arith, h)

start-IsGuarded :
    (size time_resolution : ℕ) (entries : ℕ → Slot) → IsGuarded (start size time_resolution entries)
start-IsGuarded size time_resolution entries = record {
  older = (
    λ t i h. cc,
    (λ name i h. absurd (nothing-looked_up name i h), λ i h. absurd (nothing-queued i h)),
  );
  exclusive = λ t u i ne h k. cc;
  present = λ t m name i h. cc;
}

-- In every state that goroutines reach from an empty map, while a function runs for a name and an
-- entry, the map has that entry under that name.
pub Reach-IsPresent :
    (size time_resolution : ℕ) (entries : ℕ → Slot) (s : System)
    → Reach (start size time_resolution entries) s
    → IsPresent s
Reach-IsPresent size time_resolution entries s r =
    (Reach-IsGuarded (start-IsGuarded size time_resolution entries) r).present
