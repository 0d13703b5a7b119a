-- ===== src/Base/Regex.antt =====
-- Regular expressions of JavaScript over UTF-16 units, as far as the source uses them, anchored at the
-- start: the ends that a backtracking matcher tries, in its order, of which `exec` takes the first.
use Prim.Native.Nat.{ℕ, zero, suc, ◌+◌, ◌≤◌}
use mathlib.Core.Path.{◌≡◌, subst}
use mathlib.Core.Bool.{Bool, true, false}
use mathlib.Core.Option.{Option, none, some}
use mathlib.Core.List.{List, [], ◌∷◌, ◌++◌, map}
use mathlib.Core.Logic.{inl, inr}
use native.Mathlib.Omega.{arith}
use senecial.Base.Tests.{◌==◌, leb, Bool-cases, if◌then◌else◌, some-inj, none-ne-some}
use senecial.Base.White.{is_white}
use senecial.Base.Lists.{All, All-append, length, take, drop, length-drop}

-- `chars` is a greedy repetition of a class between two bounds, and `edge` is `(?=\s|$)`.
pub data Regex : Type 0 where
  chars : (ℕ → Bool) → ℕ → Option ℕ → Regex
  group : ℕ → Regex → Regex
  both : Regex → Regex → Regex
  or : Regex → Regex → Regex
  optional : Regex → Regex
  edge : Regex

pub record Match : Type 0 where
  pub size : ℕ
  pub groups : List (ℕ × List ℕ)

abbrev only : ℕ → Match
only n = record { size = n; groups = [] }

-- How far a class reaches, up to a bound.
unfoldable run : (ℕ → Bool) → Option ℕ → List ℕ → ℕ
run p hi [] = 0
run p (some zero) (c ∷ s) = 0
run p (some (suc hi)) (c ∷ s) = let rest = run p (some hi) s in if p c then suc rest else 0
run p none (c ∷ s) = let rest = run p none s in if p c then suc rest else 0

-- The repetitions from the longest down to the shortest.
unfoldable down : ℕ → ℕ → List Match
down lo zero = if lo == 0 then only 0 ∷ [] else []
down lo (suc n) = let rest = down lo n in if leb lo (suc n) then only (suc n) ∷ rest else []

abbrev followed : Match → Match → Match
followed m k = record { size = m.size + k.size; groups = m.groups ++ k.groups }

abbrev captured : ℕ → List ℕ → Match → Match
captured n s m = record m { groups = (n, take m.size s) ∷ m.groups }

abbrev each : (Match → List Match) → List Match → List Match
each f [] = []
each f (m ∷ ms) = map (followed m) (f m) ++ each f ms

unfoldable pub matches : Regex → List ℕ → List Match
unfolding run down is_white
matches (chars p lo hi) s = down lo (run p hi s)
matches (group n r) s = map (captured n s) (matches r s)
matches (both r q) s = each (λ m. matches q (drop m.size s)) (matches r s)
matches (or r q) s = matches r s ++ matches q s
matches (optional r) s = matches r s ++ only 0 ∷ []
matches edge [] = only 0 ∷ []
matches edge (c ∷ s) = if is_white c then only 0 ∷ [] else []

abbrev pub head : List Match → Option Match
head [] = none
head (m ∷ ms) = some m

-- `r.exec(s)` and `r.test(s)`
abbrev pub exec : Regex → List ℕ → Option Match
exec r s = head (matches r s)

abbrev pub test : Regex → List ℕ → Bool
test r s = elim (matches r s) [ [] ↦ false | m ∷ ms ↦ true ]

-- `match[n]`
unfoldable pub group_at : ℕ → List (ℕ × List ℕ) → Option (List ℕ)
group_at n [] = none
group_at n ((k, text) ∷ groups) = let rest = group_at n groups in if k == n then some text else rest

abbrev In : List ℕ → Match → Type 0
In s m = m.size ≤ length s

run-le : (p : ℕ → Bool) (hi : Option ℕ) (s : List ℕ) → run p hi s ≤ length s
unfolding run
run-le p hi [] = omega arith
run-le p (some zero) (c ∷ s) = omega arith
run-le p (some (suc hi)) (c ∷ s) = ground (arith, run-le p (some hi) s)
run-le p none (c ∷ s) = ground (arith, run-le p none s)

down-le : (lo n : ℕ) (s : List ℕ) → n ≤ length s → All (In s) (down lo n)
unfolding down
down-le lo zero s h = elim (Bool-cases (lo == 0)) [ inl e ↦ rw e (h, tt) | inr e ↦ rw e tt ]
down-le lo (suc n) s h = elim (Bool-cases (leb lo (suc n))) [
  | inl e ↦ rw e (h, down-le lo n s (omega arith))
  | inr e ↦ rw e tt
]

map-captured-le :
    (n : ℕ) (s : List ℕ) (ms : List Match) → All (In s) ms → All (In s) (map (captured n s) ms)
map-captured-le n s [] h = tt
map-captured-le n s (m ∷ ms) (l, h) = (l, map-captured-le n s ms h)

map-followed-le :
    (s : List ℕ) (m : Match) (ks : List Match)
    → In s m
    → All (In (drop m.size s)) ks
    → All (In s) (map (followed m) ks)
map-followed-le s m [] h hs = tt
map-followed-le s m (k ∷ ks) h (l, hs) =
    (omega (arith, length-drop m.size s, h, l), map-followed-le s m ks h hs)

each-le :
    (s : List ℕ) (f : Match → List Match) (ms : List Match)
    → ((m : Match) → All (In (drop m.size s)) (f m))
    → All (In s) ms
    → All (In s) (each f ms)
each-le s f [] g h = tt
each-le s f (m ∷ ms) g (l, h) =
    All-append (In s) (map (followed m) (f m)) (each f ms) (map-followed-le s m (f m) l (g m))
      (each-le s f ms g h)

matches-le : (r : Regex) (s : List ℕ) → All (In s) (matches r s)
unfolding matches
matches-le (chars p lo hi) s = down-le lo (run p hi s) s (run-le p hi s)
matches-le (group n r) s = map-captured-le n s (matches r s) (matches-le r s)
matches-le (both r q) s =
    each-le s (λ m. matches q (drop m.size s)) (matches r s) (λ m. matches-le q (drop m.size s))
      (matches-le r s)
matches-le (or r q) s =
    All-append (In s) (matches r s) (matches q s) (matches-le r s) (matches-le q s)
matches-le (optional r) s =
    All-append (In s) (matches r s) (only 0 ∷ []) (matches-le r s) (omega arith, tt)
matches-le edge [] = (omega arith, tt)
matches-le edge (c ∷ s) = elim (Bool-cases (is_white c)) [
  | inl e ↦ rw e (omega arith, tt)
  | inr e ↦ rw e tt
]

-- A match lies within the text.
pub exec-le : (r : Regex) (s : List ℕ) (m : Match) → exec r s ≡ some m → m.size ≤ length s
exec-le r s m e = go (matches r s) (matches-le r s) e
  where
    go : (ms : List Match) → All (In s) ms → head ms ≡ some m → m.size ≤ length s
    go [] h e = absurd (none-ne-some e)
    go (k ∷ ks) (l, h) e = subst (In s) (some-inj e) l
