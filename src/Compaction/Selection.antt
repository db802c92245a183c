-- ===== src/Compaction/Selection.antt =====
-- Which tables a compaction takes, and where the new one goes.
use crazygraphstore.Common.{
  ℕ, ◌+◌, ◌*◌, ◌≤◌, ◌<◌, Sublist, List, [], ◌∷◌, if◌then◌else◌, ltb, length, All, arith, if_rule,
}
use crazygraphstore.Compaction.{TableInfo, max_level, calculate_new_level}

-- What `sort.Slice` by size returns.
unfoldable pub IsBySize : List TableInfo → Type 0
IsBySize [] = Unit
IsBySize (t ∷ ts) = All (λ (u : TableInfo). t.size ≤ u.size) ts × IsBySize ts

-- Two to four tables at different places of a list, in its order, no larger than twice the smallest.
pub record IsGroup (P : TableInfo → Type 0) (from group : List TableInfo) : Type 0 where
  pub chosen : Sublist group from
  pub two : 2 ≤ length group
  pub four : length group ≤ 4
  pub smallest : TableInfo
  pub similar :
      All (λ (t : TableInfo). P t × (smallest.size ≤ t.size) × (t.size ≤ smallest.size * 2)) group

-- Each size is more than twice the one before.
unfoldable pub IsSpread : List TableInfo → Type 0
IsSpread [] = Unit
IsSpread (t ∷ []) = Unit
IsSpread (t ∷ u ∷ ts) = (t.size * 2 < u.size) × IsSpread (u ∷ ts)

max_level-le :
    (n : ℕ) (ts : List TableInfo)
    → (n ≤ max_level n ts) × All (λ (t : TableInfo). t.level ≤ max_level n ts) ts
unfolding max_level
max_level-le n [] = (omega arith, tt)
max_level-le n (t ∷ ts) =
    let k : ℕ = if ltb n t.level then t.level else n in
    let both : (n ≤ k) × (t.level ≤ k) =
      if_rule (λ (m : ℕ). (n ≤ m) × (t.level ≤ m)) (ltb n t.level)
        (λ higher. ground (arith, higher)) λ lower. ground (arith, lower) in
    let rest = max_level-le k ts in
    (omega (arith, rest.0, both.0), (omega (arith, rest.0, both.1), rest.1))

raised :
    (m : ℕ) (ts : List TableInfo)
    → All (λ (t : TableInfo). t.level ≤ m) ts
    → All (λ (t : TableInfo). t.level < m + 1) ts
raised m [] h = tt
raised m (t ∷ ts) h = (omega (arith, h.0), raised m ts h.1)

-- The new table of a compaction is above the level of every table that went into it.
pub calculate_new_level_lem :
    (tables : List TableInfo) → All (λ (t : TableInfo). t.level < calculate_new_level tables) tables
unfolding calculate_new_level
calculate_new_level_lem tables = raised (max_level 0 tables) tables (max_level-le 0 tables).1
