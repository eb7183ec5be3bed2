-- ===== src/Common/Netbuf.antt =====
-- components/Common/netbuf.c with include/common/netbuf.h, and the encapsulation of
-- components/Rmt/du.c. A chain is the list of its netbufs from `pxFirst` on, and a pointer into it
-- is the chain split around the netbuf it points to.
pub mod Content
pub mod Cut
pub mod Split
pub mod Release
pub mod FreeAll
use rinasense.Base.{
  ℕ, zero, suc, ◌+◌, ◌-◌, Bool, true, false, not, ◌&&◌, ◌||◌, Option, none, some, List, [], ◌∷◌,
  ◌++◌, if◌then◌else◌, ◌==◌, ltb, leb, take, drop,
}

-- `eNetBufType_t`
pub data NetbufType : Type 0 where
  nb_unknown nb_eth_hdr nb_eth_data nb_rina_arp nb_rina_pci nb_rina_data : NetbufType

-- `netbuf_t`: the bytes from `pxBuf` to the end of the memory they lie in, and the start of that
-- memory by its number.
pub record Netbuf : Type 0 where
  pub kind : NetbufType
  pub size : ℕ
  pub buf : List ℕ
  pub buf_start : Option ℕ
  pub freed : Bool

-- `pxNetBufNew`; a size of 0 fails an assertion.
abbrev pub netbuf_new : NetbufType → List ℕ → ℕ → ℕ → Netbuf
netbuf_new kind buf start size = record {
  kind = kind;
  size = size;
  buf = buf;
  buf_start = some start;
  freed = false;
}

-- How `xNetBufSplit` ends.
pub data SplitResult : Type 0 where
  cut : List Netbuf → SplitResult
  split_oom split_fail : SplitResult

abbrev pub after_netbuf : Netbuf → SplitResult → SplitResult
after_netbuf n (cut rest) = cut (n ∷ rest)
after_netbuf n split_oom = split_oom
after_netbuf n split_fail = split_fail

-- The second part of a netbuf that is cut.
abbrev pub second_part : NetbufType → ℕ → Netbuf → Netbuf
second_part kind size n = record n {
  kind = kind;
  buf = drop size n.buf;
  size = n.size - size;
  freed = false;
}

-- `xNetBufSplit`
unfoldable pub split : (memory : Bool) → NetbufType → ℕ → List Netbuf → SplitResult
split memory kind size [] = split_fail
split memory kind size (n ∷ rest) =
    let later = split memory kind (if n.freed then size else size - n.size) rest in
    if n.freed || ltb n.size size
    then after_netbuf n later
    else if n.size == size
    then cut (n ∷ rest)
    else if not memory
    then split_oom
    else cut (record n { size = size } ∷ (second_part kind size n ∷ rest))

-- `unNetBufTotalSize`
unfoldable pub total_size : List Netbuf → ℕ
total_size [] = 0
total_size (n ∷ rest) = if n.freed then total_size rest else n.size + total_size rest

-- `unNetBufCount`
unfoldable pub netbuf_count : List Netbuf → ℕ
netbuf_count [] = 0
netbuf_count (n ∷ rest) = if n.freed then netbuf_count rest else 1 + netbuf_count rest

-- The bytes that `unNetBufRead` takes from one netbuf: `szCpy`.
abbrev pub copy_size : Netbuf → ℕ → ℕ → ℕ
copy_size n offset room =
    if n.freed || leb n.size offset
    then 0
    else if leb (n.size - offset) room
    then n.size - offset
    else room

-- `unNetBufRead`: what it copies, and its result is how much that is. The offset is passed on
-- less the size of the netbuf, which is 0 where the netbuf is longer.
unfoldable pub read : List Netbuf → (offset room : ℕ) → List ℕ
read [] offset room = []
read (n ∷ rest) offset room =
    let copied = copy_size n offset room in
    let later = read rest (if n.freed then offset else offset - n.size) (room - copied) in
    if n.freed || leb n.size offset
    then later
    else if room - copied == 0
    then take copied (drop offset n.buf)
    else take copied (drop offset n.buf) ++ later

-- `vNetBufAppend` of a chain by its first netbuf.
abbrev pub append : List Netbuf → List Netbuf → List Netbuf
append left right = left ++ right

-- `pxNetBufNext`, given the chain behind the netbuf.
unfoldable pub next_netbuf : List Netbuf → Option Netbuf
next_netbuf [] = none
next_netbuf (n ∷ rest) = if n.freed then next_netbuf rest else some n

-- The comparison of two pointers to underlying memory.
abbrev pub same_start : Option ℕ → Option ℕ → Bool
same_start none none = true
same_start none (some b) = false
same_start (some a) none = false
same_start (some a) (some b) = a == b

-- The netbufs that point to the same underlying memory.
unfoldable pub sharing : Option ℕ → List Netbuf → ℕ
sharing start [] = 0
sharing start (n ∷ rest) = (if same_start start n.buf_start then 1 else 0) + sharing start rest

unfoldable pub all_freed : List Netbuf → Bool
all_freed [] = true
all_freed (n ∷ rest) = n.freed && all_freed rest

-- The underlying memory that the free methods of a chain are called on.
unfoldable pub starts : List Netbuf → List ℕ
starts [] = []
starts (n ∷ rest) = elim n.buf_start [ none ↦ starts rest | some b ↦ b ∷ starts rest ]

-- What a netbuf is when `vNetBufFree` has marked it, given how many netbufs share its memory. It
-- shares it with itself, so the branch that calls the free method at once is not taken.
abbrev pub marked : ℕ → Netbuf → Netbuf
marked shared n = record n {
  freed = true;
  size = 0;
  buf = [];
  buf_start = if leb 2 shared then none else n.buf_start;
}

-- `vNetBufFree` of the netbuf between two parts of its chain, each with a free method: the chain that
-- stays, or none when it released every netbuf with the memory that is named.
abbrev pub mark : List Netbuf → Netbuf → List Netbuf → Netbuf
mark before n rest = marked (sharing n.buf_start (before ++ (n ∷ rest))) n

pub data Freed : Type 0 where
  chain_stays : List Netbuf → Freed
  chain_released : List ℕ → Freed

unfoldable pub netbuf_free : List Netbuf → Netbuf → List Netbuf → Freed
netbuf_free before n rest =
    let chain = before ++ (mark before n rest ∷ rest) in
    if all_freed chain then chain_released (starts chain) else chain_stays chain

-- `vNetBufFreeAll`, or nothing where it goes on to a netbuf that is released already.
unfoldable pub free_all : List Netbuf → List Netbuf → Option (List ℕ)
free_all before [] = some []
free_all before (n ∷ []) = elim (netbuf_free before n []) [
  | chain_stays chain ↦ some []
  | chain_released memory ↦ some memory
]
free_all before (n ∷ (m ∷ rest)) =
    let later = free_all (before ++ (mark before n (m ∷ rest) ∷ [])) (m ∷ rest) in
    elim (netbuf_free before n (m ∷ rest)) [
      | chain_stays chain ↦ later
      | chain_released memory ↦ none
    ]

-- `xDuEncap`: the chain with a new netbuf for the header in front.
abbrev pub du_encap : List ℕ → ℕ → ℕ → List Netbuf → List Netbuf
du_encap pci start size du = append (netbuf_new nb_rina_pci pci start size ∷ []) du

-- `xDuDecap`
abbrev pub du_decap : (memory : Bool) → ℕ → List Netbuf → SplitResult
du_decap memory size du = split memory nb_rina_data size du
