-- ===== src/Resilience/ConcurrencyLimiter/Slots.antt =====
-- The limiter as a semaphore for each key: the count of a key is the number of its slots in use.
use senecial.Base.{
  ℕ, ◌+◌, ◌-◌, ◌≤◌, ◌<◌, ◌≡◌, refl, String, true, List, [], ◌∷◌, arith, put, delete, get-put,
  get-delete, str_eq, eq_iff, ◌∙◌, ap, if◌then◌else◌, Dict, ltb, ap-if, ◌↔◌, eq_refl,
}
use senecial.Resilience.ConcurrencyLimiter.{or_zero, count, acquire, release}

count-put :
    (key other : String) (n : ℕ) (m : Dict ℕ)
    → count other (put key n m) ≡ (if str_eq key other then n else count other m)
unfolding count
count-put key other n m = ap or_zero (get-put key other n m) ∙ ap-if or_zero (str_eq key other) _ _

count-delete :
    (key other : String) (m : Dict ℕ)
    → count other (delete key m) ≡ (if str_eq key other then 0 else count other m)
unfolding count
count-delete key other m =
    ap or_zero (get-delete key other m) ∙ ap-if or_zero (str_eq key other) _ _

-- What a semaphore with `limit` slots does: the taken slots of one key.
pub data Event : Type 0 where
  taking : String → Event
  giving_back : String → Event

pub take_slot : ℕ → ℕ → ℕ
take_slot limit n = if ltb n limit then n + 1 else n

pub slots_after : ℕ → String → List Event → ℕ → ℕ
slots_after limit key [] n = n
slots_after limit key (taking k ∷ es) n =
    slots_after limit key es (if str_eq k key then take_slot limit n else n)
slots_after limit key (giving_back k ∷ es) n =
    slots_after limit key es (if str_eq k key then n - 1 else n)

unfoldable pub run : ℕ → List Event → Dict ℕ → Dict ℕ
run limit [] m = m
run limit (taking k ∷ es) m = run limit es (acquire k limit m).0
run limit (giving_back k ∷ es) m = run limit es (release k m)

pub count-acquire :
    (limit : ℕ) (key other : String) (m : Dict ℕ)
    → count other (acquire key limit m).0
      ≡ (if str_eq key other then take_slot limit (count other m) else count other m)
unfolding acquire take_slot
count-acquire limit key other m =
    ground (arith, eq_iff key other, count-put key other (count key m + 1) m)

pub count-release :
    (key other : String) (m : Dict ℕ)
    → count other (release key m) ≡ (if str_eq key other then count other m - 1 else count other m)
unfolding release
count-release key other m =
    ground
      (arith, eq_iff key other, count-put key other (count key m - 1) m, count-delete key other m)

-- The map of counts implements one semaphore for each key: after any sequence of `acquire` with
-- one limit and `release`, of any keys, a key's count is what a semaphore of its own would hold. A
-- release gives a slot back whether or not its caller's `acquire` got one.
pub count-run :
    (limit : ℕ) (events : List Event) (key : String) (m : Dict ℕ)
    → count key (run limit events m) ≡ slots_after limit key events (count key m)
unfolding run slots_after
count-run limit [] key m = refl
count-run limit (taking k ∷ es) key m =
    count-run limit es key (acquire k limit m).0
    ∙ ap (slots_after limit key es) (count-acquire limit k key m)
count-run limit (giving_back k ∷ es) key m =
    count-run limit es key (release k m) ∙ ap (slots_after limit key es) (count-release k key m)

slots_after-le :
    (limit : ℕ) (key : String) (es : List Event) (n : ℕ)
    → n ≤ limit
    → slots_after limit key es n ≤ limit
unfolding slots_after take_slot
slots_after-le limit key [] n h = h
slots_after-le limit key (taking k ∷ es) n h = slots_after-le limit key es _ (ground arith)
slots_after-le limit key (giving_back k ∷ es) n h = slots_after-le limit key es _ (ground arith)

-- From an empty map, no sequence of `acquire` with one limit and `release` brings the count of a
-- key above the limit.
count-run-le :
    (limit : ℕ) (events : List Event) (key : String) → count key (run limit events []) ≤ limit
count-run-le limit events key =
    rw (count-run limit events key [])
      (slots_after-le limit key events _ (unfold count in omega arith))

-- `acquire` says `acquired` exactly where the count is below the limit, and reports the count that
-- the map then holds. Releasing an acquired slot gives every key its old count back.
release-acquire :
    (limit : ℕ) (key other : String) (m : Dict ℕ)
    → let (m', r) = acquire key limit m in
      ((r.acquired ≡ true) ↔ (count key m < limit))
      × (r.current_count ≡ count key m')
      × (r.acquired ≡ true → count other (release key m') ≡ count other m)
unfolding acquire take_slot
release-acquire limit key other m = (
  ground arith,
  ground (arith, count-put key key (count key m + 1) m, eq_refl key),
  λ h.
      count-release key other _
      ∙ ground (arith, count-put key other (count key m + 1) m, eq_iff key other),
)
