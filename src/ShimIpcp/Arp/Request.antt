-- ===== src/ShimIpcp/Arp/Request.antt =====
-- components/ShimIPCP/ARP826.c: what the parts of a packet say, and the request.
use rinasense.Base.{
  ℕ, ◌+◌, ◌≤◌, ◌≡◌, ◌≢◌, refl, ap, ◌∙◌, sym, subst, true, false, none, some, List, [], ◌∷◌, ◌++◌,
  ◌==◌, length, take, arith, Option-cases, inl, inr, append_assoc, append-nil, length-append,
  length-take, take_all, take-length_append, take-take,
}
use rinasense.Common.Gpha.{
  Gpa, Made, made, success, bytes, mac_addr_802_3, mac_length, is_gpa_ok, create_gpa, create_gha,
  shrink, mem_chr,
}
use rinasense.Common.Gpha.Bytes.{until_zero, until_zero-take-mem_chr, mem_chr_bounds}
use rinasense.Common.Gpha.Compare.{useful}
use rinasense.ShimIpcp.Arp.{
  ArpPacketData, slice, pa_length, checked, shrunk, ◌>>=◌, extract_request_data, arp_header_size,
}
use rinasense.ShimIpcp.Arp.Layout.{slice-at}

-- An address as `pxCreateGPA` stores the bytes of a packet.
abbrev stored : List ℕ → ℕ → Gpa
stored b n = record { puc_address = some (take n b ++ (0 ∷ [])); ux_length = n }

-- An address that is read from these bytes: it says what they say, and lies in them.
pub record IsRead (b : List ℕ) (g : Gpa) : Type 0 where
  pub says : useful g ≡ until_zero b
  pub fits : g.ux_length ≤ length b
  pub room : g.ux_length ≤ length (bytes g)

create-stored : (b : List ℕ) (n : ℕ) → n ≢ 0 → create_gpa true true (some b) n ≡ made (stored b n)
unfolding create_gpa
create-stored b n h = let e : (n == 0) ≡ false = ground (arith, h) in rw (e) refl

stored_ok : (b : List ℕ) (n : ℕ) → n ≢ 0 → is_gpa_ok (some (stored b n)) ≡ true
unfolding is_gpa_ok
stored_ok b n h = let e : (n == 0) ≡ false = ground (arith, h) in rw (e) refl

stored-bytes : (b : List ℕ) (n : ℕ) → length b ≡ n → take n (take n b ++ (0 ∷ [])) ≡ b
stored-bytes b n e =
    subst (λ k. take k (take k b ++ (0 ∷ [])) ≡ b) e
      (ap (λ t. take (length b) (t ++ (0 ∷ []))) (take_all (length b) b (omega arith))
        ∙ take-length_append b (0 ∷ []))

shrunk-whole :
    (g : Gpa)
    → is_gpa_ok (some g) ≡ true
    → mem_chr (bytes g) 0 g.ux_length ≡ none
    → shrunk true g ≡ made g
unfolding shrink
shrunk-whole g ok e =
    let r : shrink true g 0 ≡ (success, g) = rw (shrink, ok, e) refl in ap checked r

shrunk-cut :
    (g : Gpa) (i : ℕ)
    → is_gpa_ok (some g) ≡ true
    → mem_chr (bytes g) 0 g.ux_length ≡ some i
    → shrunk true g ≡ made (record { puc_address = some (take i (bytes g)); ux_length = i })
unfolding shrink
shrunk-cut g i ok e =
    let r : shrink true g 0
        ≡ (success, record { puc_address = some (take i (bytes g)); ux_length = i }) =
      rw (shrink, ok, e) refl in
    ap checked r

shrunk-IsRead :
    (b : List ℕ) (n : ℕ)
    → length b ≡ n
    → n ≢ 0
    → (g : Gpa) × ((shrunk true (stored b n) ≡ made g) × IsRead b g)
unfolding useful
shrunk-IsRead b n size h = elim (Option-cases (mem_chr (take n b ++ (0 ∷ [])) 0 n)) [
  | inl e ↦ (
    stored b n,
    (
      shrunk-whole (stored b n) (stored_ok b n h) e,
      record {
        says = ap until_zero (stored-bytes b n size);
        fits = omega (arith, size);
        room = omega (arith, size, length-append (take n b) (0 ∷ []), length-take n b);
      },
    ),
  )
  | inr (i, e) ↦
      let kept : List ℕ = take n b ++ (0 ∷ []) in
      let bound = mem_chr_bounds kept 0 n i e in
      (
        record { puc_address = some (take i kept); ux_length = i },
        (
          shrunk-cut (stored b n) i (stored_ok b n h) e,
          record {
            says =
                ap until_zero (take-take i i kept (omega arith))
                ∙ (until_zero-take-mem_chr kept n i e ∙ ap until_zero (stored-bytes b n size));
            fits = omega (arith, size, bound.0);
            room = omega (arith, bound.1, length-take i kept);
          },
        ),
      )
]

-- A packet by its parts: the static header, and four addresses of known lengths.
pub record IsPacket (packet header sha spa tha tpa : List ℕ) (pal : ℕ) : Type 0 where
  pub parts : packet ≡ header ++ (sha ++ (spa ++ (tha ++ tpa)))
  pub header_size : length header ≡ arp_header_size
  pub pal_field : pa_length packet ≡ made pal
  pub sha_size : length sha ≡ mac_length
  pub spa_size : length spa ≡ pal
  pub tha_size : length tha ≡ mac_length
  pub tpa_size : length tpa ≡ pal

module _ (packet header sha spa tha tpa : List ℕ) (pal : ℕ)
    (p : IsPacket packet header sha spa tha tpa pal) where
  slice_sha : slice packet 8 mac_length ≡ made sha
  slice_sha =
      slice-at packet header sha (spa ++ (tha ++ tpa)) 8 mac_length p.parts p.header_size p.sha_size

  slice_spa : slice packet 14 pal ≡ made spa
  slice_spa =
      slice-at packet (header ++ sha) spa (tha ++ tpa) 14 pal
        (p.parts ∙ sym (append_assoc header sha (spa ++ (tha ++ tpa))))
        (omega (arith, length-append header sha, p.header_size, p.sha_size)) p.spa_size

  slice_tha : slice packet (14 + pal) mac_length ≡ made tha
  slice_tha =
      slice-at packet (header ++ (sha ++ spa)) tha tpa (14 + pal) mac_length
        (p.parts
          ∙ (ap (λ t. header ++ t) (sym (append_assoc sha spa (tha ++ tpa)))
              ∙ sym (append_assoc header (sha ++ spa) (tha ++ tpa))))
        (omega (
          arith,
          length-append header (sha ++ spa),
          length-append sha spa,
          p.header_size,
          p.sha_size,
          p.spa_size,
        ))
        p.tha_size

  slice_tpa : slice packet (14 + pal + mac_length) pal ≡ made tpa
  slice_tpa =
      slice-at packet (header ++ (sha ++ (spa ++ tha))) tpa [] (14 + pal + mac_length) pal
        (p.parts
          ∙ (ap (λ t. header ++ (sha ++ t))
                (sym (append_assoc spa tha tpa)
                  ∙ ap (λ t. (spa ++ tha) ++ t) (sym (append-nil tpa)))
              ∙ (ap (λ t. header ++ t) (sym (append_assoc sha (spa ++ tha) (tpa ++ [])))
                  ∙ sym (append_assoc header (sha ++ (spa ++ tha)) (tpa ++ [])))))
        (omega (
          arith,
          length-append header (sha ++ (spa ++ tha)),
          length-append sha (spa ++ tha),
          length-append spa tha,
          p.header_size,
          p.sha_size,
          p.spa_size,
          p.tha_size,
        ))
        p.tpa_size

create_gha-made :
    (b : List ℕ)
    → length b ≡ mac_length
    → create_gha true mac_addr_802_3 b ≡ made (record { x_type = mac_addr_802_3; uc_bytes = b })
unfolding create_gha
create_gha-made b e =
    ap (λ t. made (record { x_type = mac_addr_802_3; uc_bytes = t }))
      (take_all mac_length b (omega (arith, e)))

pub >>=-made :
    {A : Type 0} {B : Type 0} {m : Made A} {a : A} {r : Made B} (f : A → Made B)
    → m ≡ made a
    → f a ≡ r
    → (m >>= f) ≡ r
>>=-made f e k = ap (λ m. m >>= f) e ∙ k

-- What `prvARPExtractRequestData` makes of a packet by its parts.
pub extract-parts :
    (packet header sha spa tha tpa : List ℕ) (pal : ℕ)
    → IsPacket packet header sha spa tha tpa pal
    → pal ≢ 0
    → (d : ArpPacketData) × ((extract_request_data true packet ≡ made d)
        × ((IsRead spa d.px_spa × IsRead tpa d.px_tpa)
            × ((d.px_sha ≡ record { x_type = mac_addr_802_3; uc_bytes = sha })
                × (d.px_tha ≡ record { x_type = mac_addr_802_3; uc_bytes = tha }))))
unfolding extract_request_data
extract-parts packet header sha spa tha tpa pal p h =
    let (g1, (e1, r1)) = shrunk-IsRead spa pal p.spa_size h in
    let (g2, (e2, r2)) = shrunk-IsRead tpa pal p.tpa_size h in
    let s1 = slice_sha packet header sha spa tha tpa pal p in
    let s2 = slice_spa packet header sha spa tha tpa pal p in
    let s3 = slice_tha packet header sha spa tha tpa pal p in
    let s4 = slice_tpa packet header sha spa tha tpa pal p in
    let c1 = create_gha-made sha p.sha_size in
    let c2 = create-stored spa pal h in
    let c3 = create_gha-made tha p.tha_size in
    let c4 = create-stored tpa pal h in
    (
      record {
        px_spa = g1;
        px_sha = record { x_type = mac_addr_802_3; uc_bytes = sha };
        px_tpa = g2;
        px_tha = record { x_type = mac_addr_802_3; uc_bytes = tha };
      },
      (
        >>=-made _ p.pal_field (
            >>=-made _ s1 (
              >>=-made _ c1 (
                >>=-made _ s2 (
                  >>=-made _ c2 (
                    >>=-made _ s3 (
                      >>=-made _ c3
                        (>>=-made _ e1 (>>=-made _ s4 (>>=-made _ c4 (>>=-made _ e2 refl)))))))))),
        ((r1, r2), (refl, refl)),
      ),
    )
