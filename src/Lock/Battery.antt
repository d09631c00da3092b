-- ===== src/Lock/Battery.antt =====
-- lock.py: `convert_voltage_to_percentage` and its table. A cell voltage is a whole number of
-- 0.01 mV. The float that Python computes from the millivolts of the pack is that number rounded,
-- and a table entry that stands for the same number rounds alike, since the division by 4 is
-- exact; so every comparison comes out as it does on whole numbers.
use yalexs_ble.Prelude.{
  ℕ, zero, suc, ◌+◌, ◌-◌, ◌*◌, ◌/◌, true, false, not, Option, none, some, List, [], ◌∷◌, map,
  length, get_or, ltb, leb, ◌==◌, or_default, if◌then◌else◌,
}

-- `AA_BATTERY_VOLTAGE_TO_PERCENTAGE`
abbrev pub aa_battery_voltage_to_percentage : List (ℕ × ℕ)
aa_battery_voltage_to_percentage =
    (155000, 100)
    ∷ (154900, 97)
    ∷ (154800, 95)
    ∷ (154700, 94)
    ∷ (149075, 93)
    ∷ (149000, 90)
    ∷ (147100, 85)
    ∷ (146000, 80)
    ∷ (145000, 75)
    ∷ (140000, 70)
    ∷ (139000, 65)
    ∷ (138000, 60)
    ∷ (137000, 55)
    ∷ (136000, 50)
    ∷ (135000, 45)
    ∷ (134000, 40)
    ∷ (133000, 35)
    ∷ (132000, 30)
    ∷ (131000, 28)
    ∷ (130000, 27)
    ∷ (129000, 25)
    ∷ (128000, 20)
    ∷ (127000, 15)
    ∷ (126000, 10)
    ∷ (125000, 5)
    ∷ (124000, 0)
    ∷ []

-- `sorted`, by insertion.
abbrev pub insert_sorted : ℕ → List ℕ → List ℕ
insert_sorted x [] = x ∷ []
insert_sorted x (y ∷ ys) = if leb x y then x ∷ (y ∷ ys) else y ∷ insert_sorted x ys

abbrev pub sorted : List ℕ → List ℕ
sorted [] = []
sorted (x ∷ xs) = insert_sorted x (sorted xs)

-- `AA_BATTERY_VOLTAGE_LIST`; the voltages of the table differ, so they alone order the pairs.
unfoldable pub aa_battery_voltage_list : List ℕ
aa_battery_voltage_list = sorted (map (λ entry. entry.0) aa_battery_voltage_to_percentage)

-- `AA_BATTERY_VOLTAGE_MAP[v]`, on the voltages of the table.
abbrev pub percentage_at : List (ℕ × ℕ) → ℕ → Option ℕ
percentage_at [] v = none
percentage_at ((w, p) ∷ rest) v = if w == v then some p else percentage_at rest v

-- The loop of `bisect.bisect_left`, with fuel.
unfoldable pub bisect_loop : ℕ → List ℕ → ℕ → ℕ → ℕ → ℕ
bisect_loop zero a x lo hi = lo
bisect_loop (suc fuel) a x lo hi =
    let mid = (lo + hi) / 2 in
    elim (ltb lo hi) [
      | false ↦ lo
      | true ↦ elim (ltb (get_or a mid 0) x) [
        | true ↦ bisect_loop fuel a x (mid + 1) hi
        | false ↦ bisect_loop fuel a x lo mid
      ]
    ]

unfoldable pub bisect_left : List ℕ → ℕ → ℕ
bisect_left a x = bisect_loop (length a) a x 0 (length a)

-- Every voltage of the list is a key of the map, so the default of the lookup is never taken.
unfoldable pub convert_voltage_to_percentage : ℕ → ℕ
convert_voltage_to_percentage voltage =
    let pos = bisect_left aa_battery_voltage_list voltage in
    let pos' = if not (pos == 0) then pos - 1 else pos in
    or_default
      (percentage_at aa_battery_voltage_to_percentage (get_or aa_battery_voltage_list pos' 0)) 0

-- A quarter of the pack's millivolts, in 0.01 mV.
abbrev pub cell_voltage : ℕ → ℕ
cell_voltage millivolts = millivolts * 25
