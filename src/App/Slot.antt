-- ===== src/App/Slot.antt =====
-- A table of a small keeper, for runs of the export: app/export.go with keepers that compute.
use mathlib.Core.List.{Memᴰ}
use chain_rice.Common.{
  ◌≡◌, ◌≢◌, refl, inl, inr, Bytes, bytes_equal, bytes_equal_iff, List, [], ◌∷◌, Bool-cases, Option,
  none, some, if◌then◌else◌, arith,
}
use chain_rice.Common.Result.{message, not_found, Result, ok, err}
use chain_rice.App.Keepers.{Table}

-- A table with room for one record, in a part of the state.
module _ {S V : Type 0} (key : V → Bytes) (view : S → Option V) (put : S → V → S)
    (view-put : (s : S) (v : V) → view (put s v) ≡ some v) where
  unfoldable pub slot_get : Bytes → Option V → Result V
  slot_get a none = err not_found
  slot_get a (some v) = if bytes_equal (key v) a then ok v else err not_found

  unfoldable pub slot_set : S → V → Option V → Result S
  slot_set s v none = ok (put s v)
  slot_set s v (some w) =
      if bytes_equal (key w) (key v) then ok (put s v) else err (message "full" [])

  unfoldable pub slot_iterate : Option V → List V
  slot_iterate none = []
  slot_iterate (some v) = v ∷ []

  pub slot_get-own : (v : V) → slot_get (key v) (some v) ≡ ok v
  unfolding slot_get
  slot_get-own v = rw ((bytes_equal_iff (key v) (key v)).1 refl)

  pub slot_get-else : (v : V) (a : Bytes) → a ≢ key v → slot_get a (some v) ≡ err not_found
  unfolding slot_get
  slot_get-else v a ne = elim (Bool-cases (bytes_equal (key v) a)) [
    | inl e ↦ absurd (ne (cc ((bytes_equal_iff (key v) a).0 e)))
    | inr e ↦ rw e
  ]

  pub slot_set-ok : (s s' : S) (v : V) (o : Option V) → slot_set s v o ≡ ok s' → view s' ≡ some v
  unfolding slot_set
  slot_set-ok s s' v none h = cc (view-put s v)
  slot_set-ok s s' v (some w) h = elim (Bool-cases (bytes_equal (key w) (key v))) [
    | inl e ↦ let e' = rw e at h in cc (view-put s v)
    | inr e ↦ absurd (ground arith)
  ]

  pub slot_set-put : (s s' : S) (v : V) (o : Option V) → slot_set s v o ≡ ok s' → s' ≡ put s v
  unfolding slot_set
  slot_set-put s s' v none h = cc
  slot_set-put s s' v (some w) h = elim (Bool-cases (bytes_equal (key w) (key v))) [
    | inl e ↦ let e' = rw e at h in cc
    | inr e ↦ absurd (ground arith)
  ]

  pub slot_set-else :
      (s s' : S) (v : V) (a : Bytes) (o : Option V)
      → a ≢ key v
      → slot_set s v o ≡ ok s'
      → slot_get a o ≡ err not_found
  unfolding slot_set
  slot_set-else s s' v a none ne h = unfold slot_get in refl
  slot_set-else s s' v a (some w) ne h = elim (Bool-cases (bytes_equal (key w) (key v))) [
    | inl e ↦ slot_get-else w a (λ x. ne (cc ((bytes_equal_iff (key w) (key v)).0 e)))
    | inr e ↦ absurd (ground arith)
  ]

  pub slot_get-key : (a : Bytes) (v : V) (o : Option V) → slot_get a o ≡ ok v → key v ≡ a
  unfolding slot_get
  slot_get-key a v none h = absurd (ground arith)
  slot_get-key a v (some w) h = elim (Bool-cases (bytes_equal (key w) a)) [
    | inl e ↦ let e' = rw e at h in cc ((bytes_equal_iff (key w) a).0 e)
    | inr e ↦ absurd (ground arith)
  ]

  pub slot_iterate-get :
      (vs : List V) (v : V) (o : Option V)
      → ok (slot_iterate o) ≡ ok vs
      → Memᴰ v vs
      → slot_get (key v) o ≡ ok v
  unfolding slot_iterate
  slot_iterate-get [] v none h m = elim m [ ]
  slot_iterate-get (x ∷ vs) v none h m = absurd (ground arith)
  slot_iterate-get [] v (some w) h m = elim m [ ]
  slot_iterate-get (x ∷ vs) v (some w) h (Memᴰ.head e) =
      let same : v ≡ w = ground (arith, e) in rw same (slot_get-own w)
  slot_iterate-get (x ∷ y ∷ vs) v (some w) h (Memᴰ.tail m) = absurd (ground arith)
  slot_iterate-get (x ∷ []) v (some w) h (Memᴰ.tail m) = elim m [ ]

  unfoldable pub slot_table : Table S V key
  unfolding slot_iterate slot_get slot_set
  slot_table = record {
    iterate = λ s. ok (slot_iterate (view s));
    get = λ s a. slot_get a (view s);
    set = λ s v. slot_set s v (view s);
    get-set = λ s s' v h. rw (slot_set-ok s s' v (view s) h) (slot_get-own v);
    get-set_other = λ s s' v a h ne.
        rw (slot_set-ok s s' v (view s) h)
          (cc (slot_get-else v a ne, slot_set-else s s' v a (view s) ne h));
    key-get = λ s a v h. slot_get-key a v (view s) h;
    get-iterate = λ s vs v h m. slot_iterate-get vs v (view s) h m;
  }
