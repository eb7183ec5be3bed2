-- ===== src/Common/Gpha/Resize.antt =====
-- `xGPAShrink`, `xGPAGrow` and `pxDupGPA`: what they keep of an address.
use rinasense.Base.{
  ◌==◌, ℕ, suc, ◌-◌, ◌≤◌, ◌≢◌, ◌<◌, ◌≡◌, ◌↔◌, ◌∙◌, ap, refl, subst, Option-cases, true, none, some,
  List, length, take, arith, inl, inr, replicate, ◌++◌, take_all, length-take, length-append,
  length-replicate, get_or, take-length_append,
}
use rinasense.Common.Gpha.{
  Gha, IsGha, is_gha_ok, dup_gha, mac_length, mac_addr_802_3, Gpa, IsValid, bytes, gpa_cmp,
  is_gpa_ok, mem_chr, made, fault, success, shrink, grow, dup_gpa, shrunk_length,
}
use rinasense.Common.Gpha.Bytes.{
  until_zero, until_zero-append_zeros, mem_chr-append_filler, shrunk_length_bounds,
  until_zero-shrunk_length, shrunk_length-none,
}
use rinasense.Common.Gpha.Compare.{useful, gpa_cmp-eq_of_useful}

-- An address of `n` bytes of a buffer.
abbrev prefix : Gpa → ℕ → Gpa
prefix g n = record { puc_address = some (take n (bytes g)); ux_length = n }

prefix-IsValid : (g : Gpa) (n : ℕ) → 1 ≤ n → n ≤ length (bytes g) → IsValid (prefix g n)
unfolding is_gpa_ok
prefix-IsValid g n lo hi = record {
  usable = ground arith;
  room = omega (arith, length-take n (bytes g));
}

take-take_self : (n : ℕ) (bs : List ℕ) → take n (take n bs) ≡ take n bs
take-take_self n bs = take_all n (take n bs) (omega (arith, length-take n bs))

useful-prefix : (g : Gpa) (n : ℕ) → useful (prefix g n) ≡ until_zero (take n (bytes g))
unfolding useful
useful-prefix g n = ap until_zero (take-take_self n (bytes g))

module _ (g : Gpa) (v : IsValid g) where
  dup-made :
      (filler n : ℕ)
      → shrunk_length (bytes g) filler g.ux_length ≡ some n
      → dup_gpa true true g true filler ≡ made (prefix g n)
  unfolding dup_gpa
  dup-made filler n e = rw (v.usable, e)

  dup-fault :
      (filler : ℕ)
      → shrunk_length (bytes g) filler g.ux_length ≡ none
      → dup_gpa true true g true filler ≡ fault
  unfolding dup_gpa
  dup-fault filler e = rw (v.usable, e)

  pub dup_gpa-useful :
      {g' : Gpa} → dup_gpa true true g true 0 ≡ made g' → IsValid g' × (useful g' ≡ useful g)
  dup_gpa-useful {g'} e = elim (Option-cases (shrunk_length (bytes g) 0 g.ux_length)) [
    | inl gone ↦ absurd (cc (e, dup-fault 0 gone))
    | inr (n, found) ↦
        let same : prefix g n ≡ g' = cc (e, dup-made 0 n found) in
        let bound = shrunk_length_bounds (bytes g) 0 g.ux_length n found in
        let valid = prefix-IsValid g n bound.0 (omega (arith, v.room, bound.1)) in
        let kept : useful (prefix g n) ≡ useful g =
          useful-prefix g n
          ∙ until_zero-shrunk_length (bytes g) g.ux_length n found
          ∙ unfold useful in refl in
        subst (λ g'. IsValid g' × (useful g' ≡ useful g)) same (valid, kept)
  ]

  -- A copy that drops trailing zeros, as the ARP cache makes it, is valid and compares as the
  -- original does.
  pub dup_gpa-gpa_cmp :
      {g' : Gpa}
      → dup_gpa true true g true 0 ≡ made g'
      → IsValid g'
        × ((q : Gpa) → IsValid q → gpa_cmp (some g') (some q) ≡ gpa_cmp (some g) (some q))
  dup_gpa-gpa_cmp {g'} e =
      let same = dup_gpa-useful e in
      (same.0, λ q vq. gpa_cmp-eq_of_useful g' g q same.0 v vq same.1)

  -- The copying loop of `pxDupGPA` reads before the buffer exactly when every byte of the
  -- address is the filler.
  pub dup_gpa-fault_iff :
      (filler : ℕ)
      → (dup_gpa true true g true filler ≡ fault)
        ↔ ((i : ℕ) → i < g.ux_length → get_or (bytes g) i 0 ≡ filler)
  dup_gpa-fault_iff filler = (
    λ e. elim (Option-cases (shrunk_length (bytes g) filler g.ux_length)) [
      | inl gone ↦ (shrunk_length-none (bytes g) filler g.ux_length).0 gone
      | inr (n, found) ↦ absurd (cc (e, dup-made filler n found))
    ],
    λ h. dup-fault filler ((shrunk_length-none (bytes g) filler g.ux_length).1 h),
  )

  -- With a byte other than the filler in the address, the copy is made.
  pub dup_gpa-made :
      (filler i : ℕ)
      → i < g.ux_length
      → get_or (bytes g) i 0 ≢ filler
      → (g' : Gpa) × (dup_gpa true true g true filler ≡ made g')
  dup_gpa-made filler i lt ne = elim (Option-cases (shrunk_length (bytes g) filler g.ux_length)) [
    | inl gone ↦ absurd (ne ((shrunk_length-none (bytes g) filler g.ux_length).0 gone i lt))
    | inr (n, found) ↦ (prefix g n, dup-made filler n found)
  ]

  abbrev padded : ℕ → ℕ → Gpa
  padded n filler = record {
    puc_address = some (take g.ux_length (bytes g) ++ replicate (n - g.ux_length) filler);
    ux_length = n;
  }

  pub grow-padded :
      (n filler : ℕ) → g.ux_length < n → grow true g n filler ≡ (success, padded n filler)
  unfolding grow
  grow-padded n filler h = rw v.usable (ground arith)

  length-padded : (n filler : ℕ) → g.ux_length < n → length (bytes (padded n filler)) ≡ n
  length-padded n filler h = omega (
    arith,
    length-append (take g.ux_length (bytes g)) (replicate (n - g.ux_length) filler),
    length-take g.ux_length (bytes g),
    length-replicate (n - g.ux_length) filler,
    v.room,
  )

  -- `xGPAGrow` with zeros gives a valid address of the length asked for that compares as the
  -- original does.
  pub grow-gpa_cmp :
      (n : ℕ)
      → g.ux_length < n
      → (g' : Gpa) × (grow true g n 0 ≡ (success, g'))
        × IsValid g'
        × (g'.ux_length ≡ n)
        × ((q : Gpa) → IsValid q → gpa_cmp (some g') (some q) ≡ gpa_cmp (some g) (some q))
  grow-gpa_cmp n h =
      let valid : IsValid (padded n 0) = record {
        usable = unfold is_gpa_ok in (ground arith);
        room = omega (arith, length-padded n 0 h);
      } in
      let whole : take n (bytes (padded n 0)) ≡ bytes (padded n 0) =
        take_all n (bytes (padded n 0)) (omega (arith, length-padded n 0 h)) in
      let kept : useful (padded n 0) ≡ useful g =
        unfold useful in
        (ap until_zero whole
          ∙ until_zero-append_zeros (take g.ux_length (bytes g)) (n - g.ux_length)) in
      (
        padded n 0,
        grow-padded n 0 h,
        valid,
        refl,
        λ q vq. gpa_cmp-eq_of_useful (padded n 0) g q valid v vq kept,
      )

  -- An address with no filler byte in it comes back from `xGPAShrink` after `xGPAGrow`, cut to
  -- its length.
  pub shrink-grow :
      (n filler : ℕ)
      → g.ux_length < n
      → mem_chr (take g.ux_length (bytes g)) filler g.ux_length ≡ none
      → (g' : Gpa) × (grow true g n filler ≡ (success, g'))
        × (shrink true g' filler ≡ (success, prefix g g.ux_length))
  shrink-grow n filler h clean = (padded n filler, grow-padded n filler h, shrink-padded)
    where
      len : length (take g.ux_length (bytes g)) ≡ g.ux_length
      len = omega (arith, length-take g.ux_length (bytes g), v.room)

      found : mem_chr (bytes (padded n filler)) filler n ≡ some g.ux_length
      found =
          let gap : n - g.ux_length ≡ suc (n - g.ux_length - 1) = omega arith in
          rw gap (
            mem_chr-append_filler (take g.ux_length (bytes g)) filler (n - g.ux_length - 1) n
              (rw len clean) (omega (arith, len))
            ∙ ap some len)

      usable : is_gpa_ok (some (padded n filler)) ≡ true
      usable = unfold is_gpa_ok in (ground arith)

      cut : take g.ux_length (bytes (padded n filler)) ≡ take g.ux_length (bytes g)
      cut =
          subst (λ k. take k (bytes (padded n filler)) ≡ take g.ux_length (bytes g)) len
            (take-length_append (take g.ux_length (bytes g)) (replicate (n - g.ux_length) filler))

      shrink-padded : shrink true (padded n filler) filler ≡ (success, prefix g g.ux_length)
      shrink-padded = unfold shrink in (rw (usable, found, cut))

-- A copy of an Ethernet address is that address.
pub dup_gha-made : (h : Gha) → IsGha h → dup_gha true h ≡ made h
unfolding dup_gha is_gha_ok
dup_gha-made h v =
    let ethernet : (h.x_type == mac_addr_802_3) ≡ true = ground (arith, v.ethernet) in
    let whole : take mac_length h.uc_bytes ≡ h.uc_bytes =
      take_all mac_length h.uc_bytes (omega (arith, v.size)) in
    rw (ethernet, whole)
