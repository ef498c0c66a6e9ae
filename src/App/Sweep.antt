-- ===== src/App/Sweep.antt =====
-- Loops that store each record of a table again.
use mathlib.Core.List.{Memᴰ}
use chain_rice.Common.{◌≡◌, ◌≢◌, refl, ◌∙◌, Bytes, bytes_dec, List, [], ◌∷◌, inl, inr}
use chain_rice.Common.Result.{Result, ok, must, ◌>>=◌, >>=-eq-ok, must-eq-ok}
use chain_rice.App.Keepers.{Table}

-- A callback that never stops the iteration, or a loop over a list.
abbrev pub for_each {ℓ κ} : {A : Type ℓ} {S : Type κ} → (A → S → Result S) → List A → S → Result S
for_each f [] s = ok s
for_each f (a ∷ rest) s = do s' ← f a s; for_each f rest s'

-- A loop that stores `f v` for each record `v` that an iteration shows, under the key of `v`.
module _ {S V : Type 0} {key : V → Bytes} (t : Table S V key) (f : V → V) where
  abbrev pub store : V → S → Result S
  store v s = must (t.set s (f v))

  module _ (same_key : (v : V) → key (f v) ≡ key v) where
    stored : (s s' : S) (v : V) → store v s ≡ ok s' → t.get s' (key v) ≡ ok (f v)
    stored s s' v h = rw (same_key v) at (t.get-set s s' (f v) (must-eq-ok (t.set s (f v)) h))

    store-other :
        (s s' : S) (v : V) (a : Bytes) → store v s ≡ ok s' → a ≢ key v → t.get s' a ≡ t.get s a
    store-other s s' v a h ne =
        t.get-set_other s s' (f v) a (must-eq-ok (t.set s (f v)) h) (rw (same_key v) ne)

    -- The keys of the list that are not passed are left.
    pub sweep-other :
        (vs : List V) (s s' : S) (a : Bytes)
        → for_each store vs s ≡ ok s'
        → ((v : V) → Memᴰ v vs → a ≢ key v)
        → t.get s' a ≡ t.get s a
    sweep-other [] s s' a h ne = cc
    sweep-other (v ∷ vs) s s' a h ne =
        let (s1, first, rest) = >>=-eq-ok (store v s) (for_each store vs) h in
        sweep-other vs s1 s' a rest (λ w m. ne w (Memᴰ.tail m))
        ∙ store-other s s1 v a first (ne v (Memᴰ.head refl))

    -- A record that is stored is the one that is read, if no other record has its key.
    keeps :
        (vs : List V) (s s' : S) (v : V)
        → for_each store vs s ≡ ok s'
        → ((w : V) → Memᴰ w vs → key v ≡ key w → w ≡ v)
        → t.get s (key v) ≡ ok (f v)
        → t.get s' (key v) ≡ ok (f v)
    keeps [] s s' v h one g = cc
    keeps (w ∷ vs) s s' v h one g =
        let (s1, first, rest) = >>=-eq-ok (store w s) (for_each store vs) h in
        keeps vs s1 s' v rest (λ u m. one u (Memᴰ.tail m))
          (elim (bytes_dec (key v) (key w)) [
            | inl e ↦ cc (one w (Memᴰ.head refl) e, stored s s1 w first)
            | inr ne ↦ store-other s s1 w (key v) first ne ∙ g
          ])

    pub sweep-each :
        (vs : List V) (s s' : S) (v : V)
        → for_each store vs s ≡ ok s'
        → Memᴰ v vs
        → ((u w : V) → Memᴰ u vs → Memᴰ w vs → key u ≡ key w → w ≡ u)
        → t.get s' (key v) ≡ ok (f v)
    sweep-each [] s s' v h m one = elim m [ ]
    sweep-each (x ∷ vs) s s' v h (Memᴰ.head e) one =
        let (s1, first, rest) = >>=-eq-ok (store x s) (for_each store vs) h in
        keeps vs s1 s' v rest (λ w m. one v w (Memᴰ.head e) (Memᴰ.tail m))
          (cc (e, stored s s1 x first))
    sweep-each (x ∷ vs) s s' v h (Memᴰ.tail m) one =
        let (s1, first, rest) = >>=-eq-ok (store x s) (for_each store vs) h in
        sweep-each vs s1 s' v rest m (λ u w p q. one u w (Memᴰ.tail p) (Memᴰ.tail q))

    -- A loop over all that an iteration shows stores `f v` for each record `v` of it.
    pub iterate-each :
        (vs : List V) (s s' : S) (v : V)
        → t.iterate s ≡ ok vs
        → for_each store vs s ≡ ok s'
        → Memᴰ v vs
        → t.get s' (key v) ≡ ok (f v)
    iterate-each vs s s' v i h m =
        sweep-each vs s s' v h m
          (λ u w p q e. cc (t.get-iterate s vs u i p, t.get-iterate s vs w i q, e))
