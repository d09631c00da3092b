-- ===== src/Lock/BatteryLaws.antt =====
-- Binary search on a sorted list, and what the percentage of a voltage is.
use yalexs_ble.Prelude.{
  ℕ, zero, suc, ◌+◌, ◌-◌, ◌/◌, ◌≤◌, ◌<◌, ◌≡◌, refl, List, [], ◌∷◌, length, get_or, arith, ltb, leb,
  Bool-cases, inl, inr, Bool, true, ◌&&◌, if◌then◌else◌, ap, ◌∙◌, not, ◌==◌, or_default, map,
  ==_iff,
}
use yalexs_ble.Lock.Battery.{
  aa_battery_voltage_to_percentage, aa_battery_voltage_list, percentage_at, bisect_loop,
  bisect_left, convert_voltage_to_percentage,
}

abbrev pub IsSorted : List ℕ → Type 0
IsSorted a = (i j : ℕ) → i ≤ j → j < length a → get_or a i 0 ≤ get_or a j 0

-- Everything before `n` is below `x`; everything from `n` on is not.
abbrev Below : List ℕ → ℕ → ℕ → Type 0
Below a x n = (i : ℕ) → i < n → get_or a i 0 < x

abbrev Above : List ℕ → ℕ → ℕ → Type 0
Above a x n = (i : ℕ) → n ≤ i → i < length a → x ≤ get_or a i 0

abbrev IsCut : List ℕ → ℕ → ℕ → Type 0
IsCut a x n = (n ≤ length a) × Below a x n × Above a x n

bisect_loop-IsCut :
    (fuel : ℕ) (a : List ℕ) (x lo hi : ℕ)
    → IsSorted a
    → hi - lo ≤ fuel
    → lo ≤ hi
    → hi ≤ length a
    → Below a x lo
    → Above a x hi
    → IsCut a x (bisect_loop fuel a x lo hi)
unfolding bisect_loop
bisect_loop-IsCut zero a x lo hi sorted f l h below above =
    (omega arith, below, λ i p q. above i (omega arith) q)
bisect_loop-IsCut (suc fuel) a x lo hi sorted f l h below above =
    let mid = (lo + hi) / 2 in
    elim (Bool-cases (ltb lo hi)) [
      | inr done ↦ rw (done, bisect_loop) (ground arith, below, λ i p q. above i (ground arith) q)
      | inl more ↦
          let lt : lo < hi = ground arith in
          elim (Bool-cases (ltb (get_or a mid 0) x)) [
            | inl left ↦
                rw (more, left, bisect_loop)
                  (bisect_loop-IsCut fuel a x (mid + 1) hi sorted (omega arith) (omega arith) h
                    (λ i p. below_mid a x mid i sorted (omega arith) (ground arith) (omega arith))
                    above)
            | inr right ↦
                rw (more, right, bisect_loop)
                  (bisect_loop-IsCut fuel a x lo mid sorted (omega arith) (omega arith)
                    (omega arith) below (λ i p q. above_mid a x mid i sorted p q (ground arith)))
          ]
    ]
  where
    below_mid :
        (a : List ℕ) (x mid i : ℕ)
        → IsSorted a
        → mid < length a
        → get_or a mid 0 < x
        → i ≤ mid
        → get_or a i 0 < x
    below_mid a x mid i sorted m lt le = omega (arith, sorted i mid le m)

    above_mid :
        (a : List ℕ) (x mid i : ℕ)
        → IsSorted a
        → mid ≤ i
        → i < length a
        → x ≤ get_or a mid 0
        → x ≤ get_or a i 0
    above_mid a x mid i sorted le m ge = omega (arith, sorted mid i le m)

-- How many elements at the front are below `x`.
abbrev pub count_below : List ℕ → ℕ → ℕ
count_below [] x = 0
count_below (v ∷ vs) x = let rest = count_below vs x in if ltb v x then suc rest else 0

cut_unique : (a : List ℕ) (x n : ℕ) → IsCut a x n → n ≡ count_below a x
cut_unique [] x n h = omega arith
cut_unique (v ∷ vs) x zero (le, below, above) = ground (arith, above 0)
cut_unique (v ∷ vs) x (suc n) (le, below, above) = ground (
  arith,
  below 0,
  cut_unique vs x n (
    omega arith,
    λ i p. below (suc i) (omega arith),
    λ i p q. above (suc i) (omega arith) (omega arith),
  ),
)

-- On a sorted list, the binary search finds how many elements are below the one sought, as a scan
-- from the front does: its fuel, the length of the list, is enough.
pub bisect_left-count_below : (a : List ℕ) (x : ℕ) → IsSorted a → bisect_left a x ≡ count_below a x
unfolding bisect_left
bisect_left-count_below a x sorted = cut_unique a x (bisect_left a x) (
    bisect_loop-IsCut (length a) a x 0 (length a) sorted (omega arith) (omega arith) (omega arith)
      (λ i p. absurd (omega arith)) (λ i p q. absurd (omega arith)))

abbrev ascending_from : ℕ → List ℕ → Bool
ascending_from v [] = true
ascending_from v (w ∷ ws) = leb v w && ascending_from w ws

head-le : (v : ℕ) (a : List ℕ) (j : ℕ) → ascending_from v a ≡ true → j < length a → v ≤ get_or a j 0
head-le v [] j h p = elim p [ ]
head-le v (w ∷ ws) zero h p = ground arith
head-le v (w ∷ ws) (suc j) h p = ground (arith, head-le w ws j)

ascending-IsSorted : (v : ℕ) (a : List ℕ) → ascending_from v a ≡ true → IsSorted a
ascending-IsSorted v [] h i j le p = elim p [ ]
ascending-IsSorted v (w ∷ ws) h zero zero le p = omega arith
ascending-IsSorted v (w ∷ ws) h zero (suc j) le p = head-le w ws j (ground arith) (omega arith)
ascending-IsSorted v (w ∷ ws) h (suc i) zero le p = absurd (omega arith)
ascending-IsSorted v (w ∷ ws) h (suc i) (suc j) le p =
    ascending-IsSorted w ws (ground arith) i j (omega arith) (omega arith)

voltages-IsSorted : IsSorted aa_battery_voltage_list
unfolding aa_battery_voltage_list
voltages-IsSorted = ascending-IsSorted 0 aa_battery_voltage_list refl

-- The entries in ascending order of voltage.
abbrev reverse_onto : List (ℕ × ℕ) → List (ℕ × ℕ) → List (ℕ × ℕ)
reverse_onto [] out = out
reverse_onto (e ∷ es) out = reverse_onto es (e ∷ out)

abbrev pub ascending_table : List (ℕ × ℕ)
ascending_table = reverse_onto aa_battery_voltage_to_percentage []

-- The percentage of the last entry below the voltage, `p` if there is none.
abbrev pub percentage_below : ℕ → List (ℕ × ℕ) → ℕ → ℕ
percentage_below p [] v = p
percentage_below p ((w, q) ∷ rest) v =
    let higher = percentage_below q rest v in if ltb w v then higher else p

entry_at_count :
    (p : ℕ) (table : List (ℕ × ℕ)) (v : ℕ)
    → get_or (p ∷ map (λ e. e.1) table) (count_below (map (λ e. e.0) table) v) 0
      ≡ percentage_below p table v
entry_at_count p [] v = refl
entry_at_count p ((w, q) ∷ rest) v = ground (arith, entry_at_count q rest v)

count_below-le : (a : List ℕ) (v : ℕ) → count_below a v ≤ length a
count_below-le [] v = omega arith
count_below-le (w ∷ ws) v = ground (arith, count_below-le ws v)

-- The lookup behind the search, by the position that the search gives.
entry_of_position : ℕ → ℕ
entry_of_position pos =
    or_default
      (percentage_at aa_battery_voltage_to_percentage
        (get_or aa_battery_voltage_list (if not (pos == 0) then pos - 1 else pos) 0))
      0

-- The test holds of each of the first `count` positions.
every_position : (ℕ → Bool) → ℕ → Bool
every_position test zero = true
every_position test (suc last) = every_position test last && test last

every_position_holds :
    (test : ℕ → Bool) (count position : ℕ)
    → position < count
    → every_position test count ≡ true
    → test position ≡ true
unfolding every_position
every_position_holds test zero position inside checked = absurd (omega arith)
every_position_holds test (suc last) position inside checked =
    ground (arith, every_position_holds test last position)

entry_table :
    every_position (λ n. entry_of_position n == get_or (0 ∷ map (λ e. e.1) ascending_table) n 0) 27
    ≡ true
unfolding every_position entry_of_position aa_battery_voltage_list
entry_table = refl

entry_of_position-eq :
    (n : ℕ) → n < 27 → entry_of_position n ≡ get_or (0 ∷ map (λ e. e.1) ascending_table) n 0
entry_of_position-eq n h = (==_iff _ _).0 (every_position_holds _ 27 n h entry_table)

-- The percentage of a voltage is that of the highest table entry strictly below it, and zero if
-- there is none: the binary search over the sorted voltages finds the entry of the linear scan.
pub convert_voltage_to_percentage-entry :
    (voltage : ℕ)
    → convert_voltage_to_percentage voltage ≡ percentage_below 0 ascending_table voltage
unfolding convert_voltage_to_percentage entry_of_position aa_battery_voltage_list
convert_voltage_to_percentage-entry voltage =
    let n = count_below (map (λ e. e.0) ascending_table) voltage in
    ap entry_of_position (bisect_left-count_below aa_battery_voltage_list voltage voltages-IsSorted)
    ∙ (entry_of_position-eq n
          (omega (arith, count_below-le (map (λ e. e.0) ascending_table) voltage))
        ∙ entry_at_count 0 ascending_table voltage)
