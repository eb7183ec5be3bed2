-- ===== src/ShimIpcp/Arp/Layout.antt =====
-- components/ShimIPCP/ARP826.c: the parts of a packet.
use rinasense.Base.{
  ℕ, ◌+◌, ◌≡◌, refl, ap, ◌∙◌, sym, true, List, [], ◌∷◌, ◌++◌, leb, length, take, drop, arith,
  length-append, take-length_append,
}
use rinasense.Common.Gpha.{made}
use rinasense.ShimIpcp.Arp.{slice}

drop-length_append {ℓ} : {A : Type ℓ} (xs ys : List A) → drop (length xs) (xs ++ ys) ≡ ys
drop-length_append [] ys = refl
drop-length_append (x ∷ xs) ys = drop-length_append xs ys

slice-middle :
    (front middle back : List ℕ)
    → slice (front ++ (middle ++ back)) (length front) (length middle) ≡ made middle
unfolding slice
slice-middle front middle back =
    let inside : leb (length front + length middle) (length (front ++ (middle ++ back))) ≡ true =
      ground (arith, length-append front (middle ++ back), length-append middle back) in
    rw (slice, inside)
      (ap made (
        ap (take (length middle)) (drop-length_append front (middle ++ back))
        ∙ take-length_append middle back))

-- The part of a packet behind others of known lengths.
pub slice-at :
    (packet front middle back : List ℕ) (offset size : ℕ)
    → packet ≡ front ++ (middle ++ back)
    → length front ≡ offset
    → length middle ≡ size
    → slice packet offset size ≡ made middle
slice-at packet front middle back offset size p o n =
    ap (λ q. slice q offset size) p
    ∙ (ap (λ k. slice (front ++ (middle ++ back)) k size) (sym o)
        ∙ (ap (λ k. slice (front ++ (middle ++ back)) (length front) k) (sym n)
            ∙ slice-middle front middle back))
