-- ===== src/Testnet/Replace/Stores.antt =====
-- What is in the store of x/staking when initAppForTestnet ends.
use mathlib.Core.List.{Memᴰ}
use chain_rice.Common.{
  ◌≡◌, ◌≢◌, refl, sym, ap, ◌∙◌, Bytes, bytes_dec, Bool, true, false, Bool-cases, Option, none, some,
  List, [], ◌∷◌, inl, inr, arith, if◌then◌else◌, ◌||◌,
}
use chain_rice.Common.Result.{Result, ok, err, panic, >>=-eq-ok}
use chain_rice.Testnet.InPlace.{ValArgs, handle_err}
use chain_rice.Testnet.Replace.{
  Validator, Staking, Lawful, Enumerates, Others, has_prefix, new_validator, delete_all,
  delete_prefix, remove_validators, add_validator, init_others, init_app_for_testnet,
}

handle_err-eq-ok : {A : Type 0} (r : Result A) (a : A) → handle_err r ≡ ok a → r ≡ ok a
handle_err-eq-ok (ok b) a h = h
handle_err-eq-ok (err e) a h = absurd (ground (arith, h))
handle_err-eq-ok (panic e) a h = absurd (ground (arith, h))

some-ne-none : {A : Type 0} (a : A) → some a ≢ none
some-ne-none a h = absurd (ground (arith, h))

module _ (k : Staking) (laws : Lawful k) where
  open k use {Store, content}

  delete_all-none :
      (keys : List Bytes) (s : Store) (q : Bytes)
      → content s q ≡ none
      → content (delete_all k keys s) q ≡ none
  unfolding delete_all
  delete_all-none [] s q h = h
  delete_all-none (p ∷ keys) s q h = delete_all-none keys (k.delete p s) q (elim (bytes_dec q p) [
    | inl e ↦ rw e (laws.delete-own s p)
    | inr ne ↦ laws.delete-other s p q ne ∙ h
  ])

  delete_all-listed :
      (keys : List Bytes) (s : Store) (q : Bytes)
      → Memᴰ q keys
      → content (delete_all k keys s) q ≡ none
  unfolding delete_all
  delete_all-listed [] s q m = elim m [ ]
  delete_all-listed (p ∷ keys) s q (Memᴰ.head e) =
      delete_all-none keys (k.delete p s) q (rw e (laws.delete-own s p))
  delete_all-listed (p ∷ keys) s q (Memᴰ.tail m) = delete_all-listed keys (k.delete p s) q m

  delete_all-unlisted :
      (keys : List Bytes) (s : Store) (q : Bytes)
      → ¬ Memᴰ q keys
      → content (delete_all k keys s) q ≡ content s q
  unfolding delete_all
  delete_all-unlisted [] s q h = refl
  delete_all-unlisted (p ∷ keys) s q h =
      delete_all-unlisted keys (k.delete p s) q (λ m. h (Memᴰ.tail m))
      ∙ laws.delete-other s p q (λ e. h (Memᴰ.head e))

  abbrev Cleared : Bytes → Store → Store → Type 0
  Cleared p s s' = (q : Bytes) → content s' q ≡ (if has_prefix p q then none else content s q)

  delete_all-Cleared :
      (p : Bytes) (keys : List Bytes) (s : Store)
      → Enumerates k s p keys
      → Cleared p s (delete_all k keys s)
  delete_all-Cleared p keys s lists q = elim (Bool-cases (has_prefix p q)) [
    | inl has ↦ rw has (cases has (content s q) refl)
    | inr hasnt ↦
        rw hasnt
          (delete_all-unlisted keys s q (λ m. absurd (ground (arith, hasnt, ((lists q).0 m).1))))
  ]
    where
      cases :
          has_prefix p q ≡ true
          → (o : Option Bytes) → content s q ≡ o
          → content (delete_all k keys s) q ≡ none
      cases has none e = delete_all-none keys s q e
      cases has (some b) e =
          delete_all-listed keys s q ((lists q).1 (λ h. some-ne-none b (sym e ∙ h), has))

  -- The keys of the four tables of validators.
  abbrev pub in_tables : Bytes → Bool
  in_tables q =
      has_prefix k.validator_queue_key q
      || (has_prefix k.validators_key q
          || (has_prefix k.last_validator_power_key q
              || has_prefix k.validators_by_power_index_key q))

  one_after_other :
      (a b c d : Bool) (o : Option Bytes)
      → (if a then none else (if b then none else (if c then none else (if d then none else o))))
        ≡ (if a || (b || (c || d)) then none else o)
  one_after_other true b c d o = refl
  one_after_other false true c d o = refl
  one_after_other false false true d o = refl
  one_after_other false false false d o = refl

  remove_validators_lem :
      (s s' : Store) (q : Bytes)
      → remove_validators k s ≡ ok s'
      → content s' q ≡ (if in_tables q then none else content s q)
  unfolding remove_validators delete_prefix
  remove_validators_lem s s' q h =
      let (by, e1, h1) = >>=-eq-ok (handle_err (k.validators_power_store_iterator s)) _ h in
      let s1 = delete_all k by s in
      let (last, e2, h2) = >>=-eq-ok (handle_err (k.last_validators_iterator s1)) _ h1 in
      let s2 = delete_all k last s1 in
      let vals = k.iterator k.validators_key (k.prefix_end_bytes k.validators_key) s2 in
      let s3 = delete_all k vals s2 in
      let waiting =
        k.iterator k.validator_queue_key (k.prefix_end_bytes k.validator_queue_key) s3 in
      let done : delete_all k waiting s3 ≡ s' = ground (arith, h2) in
      let c1 =
        delete_all-Cleared _ by s (laws.power-Enumerates s by (handle_err-eq-ok _ by e1)) q in
      let c2 =
        delete_all-Cleared _ last s1 (laws.last-Enumerates s1 last (handle_err-eq-ok _ last e2))
          q in
      let c3 = delete_all-Cleared _ vals s2 (laws.iterator-Enumerates s2 k.validators_key) q in
      let c4 =
        delete_all-Cleared _ waiting s3 (laws.iterator-Enumerates s3 k.validator_queue_key) q in
      sym (ap (λ (u : Store). content u q) done)
      ∙ c4
      ∙ rw (c3, c2, c1)
          (one_after_other (has_prefix k.validator_queue_key q) (has_prefix k.validators_key q)
            (has_prefix k.last_validator_power_key q) (has_prefix k.validators_by_power_index_key q)
            (content s q))

  -- The keys that the setters write for the validator `v` with the address `a`.
  pub data NewKey (v : Validator k.Any) (a q : Bytes) : Type 0 where
    record_of : q ≡ k.validator_key v → NewKey v a q
    by_cons_addr : q ≡ k.cons_addr_key v → NewKey v a q
    in_power_index : q ≡ k.power_index_key v → NewKey v a q
    last_power_of : q ≡ k.last_power_key a → NewKey v a q

  add_validator_lem :
      (v : Validator k.Any) (a : Bytes) (s s' : Store) (q : Bytes)
      → add_validator k v a s ≡ ok s'
      → ¬ NewKey v a q
      → content s' q ≡ content s q
  unfolding add_validator
  add_validator_lem v a s s' q h ne =
      let (s1, e1, h1) = >>=-eq-ok (handle_err (k.set_validator v s)) _ h in
      let (s2, e2, h2) = >>=-eq-ok (handle_err (k.set_validator_by_cons_addr v s1)) _ h1 in
      let (s3, e3, h3) = >>=-eq-ok (handle_err (k.set_validator_by_power_index v s2)) _ h2 in
      let f1 = handle_err-eq-ok _ s1 e1 in
      let f2 = handle_err-eq-ok _ s2 e2 in
      let f3 = handle_err-eq-ok _ s3 e3 in
      let f4 = handle_err-eq-ok _ s' h3 in
      laws.set_last_power-other s3 s' a 0 q f4 (λ e. ne (last_power_of e))
      ∙ laws.set_power_index-other s2 s3 v q f3 (λ e. ne (in_power_index e))
      ∙ laws.set_cons_addr-other s1 s2 v q f2 (λ e. ne (by_cons_addr e))
      ∙ laws.set_validator-other s s1 v q f1 (λ e. ne (record_of e))

  module _ (o : Others k) where
    -- If `init_app_for_testnet` ends without an error, then of the keys that are not written for the new
    -- validator, those in the tables of validators, of their powers and last powers and in the queue of
    -- those unbonding are gone from the store of x/staking, and all others are as they were.
    pub init_app_for_testnet-replaces :
        (args : ValArgs) (any : k.Any) (validator : Bytes) (s s' : Store) (t t' : o.State)
        → o.new_any_with_value args.new_val_pub_key ≡ ok any
        → k.validator_string_to_bytes args.new_operator_address ≡ ok validator
        → init_app_for_testnet k o args s t ≡ ok (s', t')
        → (q : Bytes) → ¬ NewKey (new_validator args.new_operator_address any) validator q
        → content s' q ≡ (if in_tables q then none else content s q)
    unfolding init_app_for_testnet new_validator
    init_app_for_testnet-replaces args any validator s s' t t' key addr h q ne =
        let v = new_validator args.new_operator_address any in
        let h1 = rw (key, addr) at h in
        let (s1, e1, h2) = >>=-eq-ok (remove_validators k s) _ h1 in
        let (s2, e2, h3) = >>=-eq-ok (add_validator k v validator s1) _ h2 in
        let (t1, e3, h4) = >>=-eq-ok (init_others k o args validator s2 t) _ h3 in
        let last : s2 ≡ s' = ground (arith, h4) in
        sym (ap (λ (u : Store). content u q) last)
        ∙ add_validator_lem v validator s1 s2 q e2 ne
        ∙ remove_validators_lem s s1 q e1
