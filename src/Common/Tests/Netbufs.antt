-- ===== src/Common/Tests/Netbufs.antt =====
-- The theorems about components/Common/netbuf.c at concrete inputs.
use rinasense.Base.{
  ℕ, ◌≡◌, refl, true, none, some, List, [], ◌∷◌, ◌++◌, arith, times, min, take, drop,
}
use rinasense.Common.Netbuf.{
  Netbuf, nb_rina_data, netbuf_new, split, cut, read, free_all, total_size, starts, netbuf_free,
  all_freed, sharing,
}
use rinasense.Common.Netbuf.Content.{content}
use rinasense.Common.Netbuf.Cut.{read-take}
use rinasense.Common.Netbuf.Split.{split-IsCutAt, IsCutAt}
use rinasense.Common.Netbuf.Release.{owners}
use rinasense.Common.Netbuf.FreeAll.{free_all-once, free_all-faults}

-- A netbuf of four bytes, one that is freed, and one of two bytes in the memory of the first.
abbrev first : Netbuf
first = netbuf_new nb_rina_data (1 ∷ (2 ∷ (3 ∷ (4 ∷ [])))) 7 4

abbrev gone : Netbuf
gone = record { kind = nb_rina_data; size = 0; buf = []; buf_start = none; freed = true }

abbrev second : Netbuf
second = netbuf_new nb_rina_data (5 ∷ (6 ∷ [])) 7 2

abbrev nodes : List Netbuf
nodes = first ∷ (gone ∷ (second ∷ []))

nodes-read : read nodes 3 2 ≡ 4 ∷ (5 ∷ [])
unfolding read
nodes-read = refl

read-take_example : read nodes 3 2 ≡ take 2 (drop 3 (content nodes))
read-take_example = read-take nodes 3 2 (omega arith, (omega arith, (omega arith, tt)))

split-IsCutAt_example :
    (front : List Netbuf) × ((back : List Netbuf) × ((split true nb_rina_data 3 nodes
          ≡ cut (front ++ back))
        × IsCutAt 3 nodes front back))
unfolding total_size
split-IsCutAt_example =
    split-IsCutAt nb_rina_data 3 nodes (omega arith, (omega arith, (omega arith, tt))) (omega arith)
      (omega arith)

nodes-free_all : free_all [] nodes ≡ some (7 ∷ [])
unfolding free_all netbuf_free all_freed starts sharing
nodes-free_all = refl

free_all-once_example :
    (memory : List ℕ) × ((free_all [] nodes ≡ some memory)
      × ((b : ℕ) → times b memory ≡ min 1 (owners b nodes)))
free_all-once_example = free_all-once (first ∷ (gone ∷ [])) second refl

free_all-faults_runs : free_all [] (first ∷ (gone ∷ [])) ≡ none
free_all-faults_runs = free_all-faults [] first gone refl
