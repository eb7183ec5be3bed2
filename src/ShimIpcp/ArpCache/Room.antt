-- ===== src/ShimIpcp/ArpCache/Room.antt =====
-- components/ShimIPCP/cache.c: the rows that an addition leaves free.
use rinasense.Base.{
  ℕ, suc, ◌≤◌, ◌≡◌, refl, true, some, List, [], ◌∷◌, if◌then◌else◌, ◌==◌, arith, Bool-cases,
  Option-cases, inl, inr, subst,
}
use rinasense.Common.Gpha.{Gpa, Gha, Made, made, null, fault, dup_gpa, dup_gha}
use rinasense.ShimIpcp.ArpCache.{ArpCache, Row, Memory, add, store, store_row}
use rinasense.ShimIpcp.ArpCache.Add.{has_room}

-- How many rows of a table are free.
unfoldable pub free_rows : List Row → ℕ
free_rows [] = 0
free_rows (r ∷ rows) = if r.uc_valid == 0 then suc (free_rows rows) else free_rows rows

pub has_room-free : (rows : List Row) → 1 ≤ free_rows rows → has_room rows ≡ true
unfolding free_rows
has_room-free [] h = absurd (omega arith)
has_room-free (r ∷ rows) h = ground (arith, has_room-free rows)

store_row-free :
    (pa : Gpa) (ha : Gha) (rows rows' : List Row)
    → store_row pa ha rows ≡ some rows'
    → free_rows rows ≤ suc (free_rows rows')
unfolding free_rows store_row
store_row-free pa ha [] rows' e = omega arith
store_row-free pa ha (r ∷ rows) rows' e = elim (Bool-cases (r.uc_valid == 0)) [
  | inl free ↦
      let new : Row = record { px_pa = some pa; px_ha = some ha; uc_age = 1; uc_valid = 1 } in
      let same : some (new ∷ rows) ≡ some rows' = rw free at e in
      let cons_same : (new ∷ rows) ≡ rows' = cc same in
      subst (λ k. free_rows (r ∷ rows) ≤ suc (free_rows k)) cons_same (rw free (omega arith))
  | inr busy ↦ elim (Option-cases (store_row pa ha rows)) [
    | inl full ↦ absurd (cc (rw (busy, full) at e))
    | inr (rest, er) ↦
        let same : some (r ∷ rest) ≡ some rows' = rw (busy, er) at e in
        let cons_same : (r ∷ rest) ≡ rows' = cc same in
        let ih = store_row-free pa ha rows rest er in
        subst (λ k. free_rows (r ∷ rows) ≤ suc (free_rows k)) cons_same (rw busy ih)
  ]
]

store-free :
    (c : ArpCache) (pa : Gpa) (ha : Gha)
    → free_rows c.px_rows ≤ suc (free_rows (store c pa ha).1.px_rows)
unfolding store
store-free c pa ha = elim (Option-cases (store_row pa ha c.px_rows)) [
  | inl full ↦ rw (store, full) (omega arith)
  | inr (rows, e) ↦ rw (store, e) (store_row-free pa ha c.px_rows rows e)
]

-- An addition takes at most one of the rows that are free.
pub add-free :
    (memory : Memory) (c : ArpCache) (pa : Gpa) (ha : Gha)
    → free_rows c.px_rows ≤ suc (free_rows (add memory c pa ha).1.px_rows)
unfolding add
add-free memory c pa ha =
    by_copies (dup_gpa memory.gpa_struct memory.gpa_bytes pa true 0) refl (dup_gha memory.gha ha)
      refl
  where
    by_copies :
        (p : Made Gpa)
        → dup_gpa memory.gpa_struct memory.gpa_bytes pa true 0 ≡ p
        → (h : Made Gha) → dup_gha memory.gha ha ≡ h
        → free_rows c.px_rows ≤ suc (free_rows (add memory c pa ha).1.px_rows)
    by_copies null ep h eh = rw (add, ep) (omega arith)
    by_copies fault ep h eh = rw (add, ep) (omega arith)
    by_copies (made pa') ep null eh = rw (add, ep, eh) (omega arith)
    by_copies (made pa') ep fault eh = rw (add, ep, eh) (omega arith)
    by_copies (made pa') ep (made ha') eh = rw (add, ep, eh) (store-free c pa' ha')
