-- ===== src/Efcp/Destroy.antt =====
-- components/EFCP/EFCP.c: destroying connections.
use rinasense.Base.{
  ℕ, ◌≡◌, refl, ap, ◌∙◌, sym, subst, true, false, Option, none, some, List, [], ◌∷◌, ◌==◌, All,
  arith, Bool-cases, Option-cases, inl, inr,
}
use rinasense.Efcp.{Instance, ImapRow, Container, answered, is_cep_id_ok, imap_find, imap_remove}
use rinasense.Efcp.Units.{looked_up}
use rinasense.Efcp.Connections.{connection_destroy}
use rinasense.Efcp.Heap.{IsLive}
use rinasense.Efcp.Single.{
  IsSingle, IsTable, IsNull, find-IsLive, find-IsNull, find-first, find-skip, remove-IsNull,
  remove-first, remove-skip,
}

removed-IsNull :
    (instances : List (Option Instance)) (rows : List ImapRow)
    → IsTable instances rows
    → All IsNull (imap_remove 1 (imap_find 1 rows).1)
unfolding imap_remove imap_find
removed-IsNull instances [] w = tt
removed-IsNull instances (r ∷ rows) w = elim (Bool-cases (r.cep_id_key == 1)) [
  | inl e ↦
      subst (All IsNull)
        (sym (
          ap (λ p. imap_remove 1 p.1) (find-first 1 r rows e)
          ∙ remove-first 1 (record r { uc_valid = 1 }) rows e))
        ((refl, refl), w.1)
  | inr e ↦ elim w.0 [
    | inl n ↦
        subst (All IsNull)
          (sym (
            ap (λ p. imap_remove 1 p.1) (find-skip 1 r rows e)
            ∙ remove-skip 1 r (imap_find 1 rows).1 e))
          (n, remove-IsNull 1 (imap_find 1 rows).1 (find-IsNull 1 rows w.1).1)
    | inr k ↦ absurd (ground (arith, e, k.0))
  ]
]

-- `xEfcpConnectionDestroy` of a connection that is found: it answers false, no identifier is found
-- in the container any more, and the heap is as before, with the instance still in use.
pub connection_destroy-leaks :
    (c : Container) (cep i key : ℕ)
    → IsSingle c
    → (imap_find cep c.imap).0 ≡ some i
    → (c1 : Container) × ((connection_destroy c cep ≡ answered false c1 [])
        × (((imap_find key c1.imap).0 ≡ none)
            × ((c1.instances ≡ c.instances) × IsLive c1.instances i)))
unfolding connection_destroy
connection_destroy-leaks c cep i key w f =
    let (one, live) = find-IsLive c.instances cep c.imap i w f in
    let ok : is_cep_id_ok cep ≡ true = ground (arith, one) in
    let none_left : All IsNull (imap_remove cep (imap_find cep c.imap).1) =
      subst (λ k. All IsNull (imap_remove k (imap_find k c.imap).1)) (sym one)
        (removed-IsNull c.instances c.imap w) in
    (
      record c { imap = imap_remove cep (imap_find cep c.imap).1 },
      (
        rw (connection_destroy, ok, f) refl,
        ((find-IsNull key (imap_remove cep (imap_find cep c.imap).1) none_left).0, (refl, live)),
      ),
    )

-- `xEfcpConnectionDestroy` answers false, whatever it is given, and leaves the heap as it was.
pub connection_destroy-false :
    (c : Container) (cep : ℕ)
    → (c1 : Container) × ((connection_destroy c cep ≡ answered false c1 [])
        × (c1.instances ≡ c.instances))
unfolding connection_destroy
connection_destroy-false c cep = elim (Bool-cases (is_cep_id_ok cep)) [
  | inl e ↦ elim (Option-cases ((imap_find cep c.imap).0)) [
    | inl f ↦ (looked_up c cep, (rw (connection_destroy, e, f) refl, refl))
    | inr (i, f) ↦ (
      record c { imap = imap_remove cep (imap_find cep c.imap).1 },
      (rw (connection_destroy, e, f) refl, refl),
    )
  ]
  | inr e ↦ (c, (rw (connection_destroy, e) refl, refl))
]
