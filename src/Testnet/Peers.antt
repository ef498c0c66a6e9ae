-- ===== src/Testnet/Peers.antt =====
-- The list of persistent peers.
use mathlib.Core.List.{append_assoc, cons-ne-nil}
use chain_rice.Common.{◌≡◌, ◌≢◌, refl, ap, ◌∙◌, GoString, List, [], ◌∷◌, ◌++◌, arith}
use chain_rice.Testnet.Strings.{comma, split}
use chain_rice.Testnet.Nodes.{add_peer, persistent_peers_from, persistent_peers_of}

abbrev pub NoComma : GoString → Type 0
NoComma [] = Unit
NoComma (c ∷ s) = (c ≢ 44) × NoComma s

-- Each is not empty and has no comma.
abbrev pub AreMemos : List GoString → Type 0
AreMemos [] = Unit
AreMemos (m ∷ ms) = (m ≢ []) × NoComma m × AreMemos ms

split-NoComma : (s : GoString) → NoComma s → split s ≡ s ∷ []
unfolding split
split-NoComma [] h = refl
split-NoComma (c ∷ s) h = ground (arith, split-NoComma s)

split-append : (s t : GoString) → NoComma s → split (s ++ (comma ∷ t)) ≡ s ∷ split t
unfolding split
split-append [] t h = refl
split-append (c ∷ s) t h = ground (arith, split-append s t)

-- The peers with a comma between each two.
joined : GoString → List GoString → GoString
joined m [] = m
joined m (n ∷ ms) = m ++ (comma ∷ joined n ms)

split-joined :
    (m : GoString) (ms : List GoString) → AreMemos (m ∷ ms) → split (joined m ms) ≡ m ∷ ms
unfolding joined
split-joined m [] h = split-NoComma m h.1
split-joined m (n ∷ ms) h =
    split-append m (joined n ms) h.1 ∙ ap (λ (t : List GoString). m ∷ t) (split-joined n ms h.2)

add_peer-nonempty : (p m : GoString) → p ≢ [] → add_peer p m ≡ p ++ (comma ∷ m)
unfolding add_peer
add_peer-nonempty [] m h = absurd (h refl)
add_peer-nonempty (c ∷ p) m h = refl

append-ne-nil : (p s : GoString) → p ≢ [] → p ++ s ≢ []
append-ne-nil [] s h = absurd (h refl)
append-ne-nil (c ∷ p) s h = cons-ne-nil c (p ++ s)

from-joined :
    (m : GoString) (ms : List GoString) → m ≢ [] → persistent_peers_from m ms ≡ joined m ms
unfolding persistent_peers_from joined
from-joined m [] h = refl
from-joined m (n ∷ []) h = add_peer-nonempty m n h
from-joined m (n ∷ k ∷ ms) h = rw (add_peer-nonempty m n h) (
    from-joined (m ++ (comma ∷ n)) (k ∷ ms) (append-ne-nil m (comma ∷ n) h)
    ∙ append_assoc m (comma ∷ n) (comma ∷ joined k ms))

-- The list of peers of at least one node, split at its commas, is the memos of the nodes in order,
-- where no memo is empty or has a comma.
pub split-persistent_peers_of :
    (m : GoString) (ms : List GoString)
    → AreMemos (m ∷ ms)
    → split (persistent_peers_of (m ∷ ms)) ≡ m ∷ ms
unfolding persistent_peers_of persistent_peers_from add_peer
split-persistent_peers_of m ms h = rw (from-joined m ms h.0) (split-joined m ms h)
