-- ===== src/Validator/Rollovers/Restart.antt =====
-- Who takes part in a restarted key generation (crates/validator/src/state/keygen.rs).
use safenet.Prelude.{
  ℕ, ◌≤◌, ◌≡◌, refl, Option, none, some, List, [], ◌∷◌, arith, inl, inr, ◌⊎◌, false, length,
  Option-cases, Bool-cases, map, ◌||◌, ◌&&◌, not, ◌+◌, ◌%◌, min, u64_max, true,
}
use safenet.Prelude.BTree.{
  BTreeSet, contains, elements, elem, elem-elements, BTreeMap, get, contains_key,
}
use safenet.Alloy.{Alloy, Address, B256}
use safenet.Consensus.Epoch.{number}
use safenet.Consensus.Group.{ParticipantSet, participants_set, participate_as, group_of}
use safenet.Consensus.Group.{exclude_all_others, Group, eligible}
use safenet.Consensus.Group.Bounds.{
  participants_set-IsViable, participants_set-none, TooFew, contains-exclude_all_others,
}
use safenet.Validator.Frost.{Frost}
use safenet.Validator.State.{
  Transition, State, RolloverState, CollectingCommitments, CollectingShares, collecting_commitments,
  collecting_shares, epoch_skipped, KeyGenCommitment,
}
use safenet.Validator.KeyGen.Start.{
  restart_key_gen_excluding, start_key_gen, fresh_epoch, rollover_failure, key_gen_deadline,
  commitment_round,
}
use safenet.Validator.KeyGen.Timeouts.{handle_key_gen_timeouts, is_stuck}

elem-keys {ℓ} :
    {V : Type ℓ} (a : ℕ) (m : BTreeMap V) → elem a (map (λ (e : ℕ × V). e.0) m) ≡ contains_key a m
unfolding elem get
elem-keys a [] = refl
elem-keys a ((j, v) ∷ m) = ground (arith, elem-keys a m)

some-none {ℓ} : {A : Type ℓ} {o : Option A} {a : A} → o ≡ some a → o ≡ none → ⊥
some-none h k = cc

module _ ⦃A : Alloy⦄ where
  participate_as-group :
      (s : ParticipantSet) (a : Address) (g : Group) (poap : List ℕ)
      → participate_as s a ≡ some (g, poap)
      → g.participants ≡ s.addresses
  unfolding participate_as group_of
  participate_as-group s a g poap h = ground arith

  participants-cases :
      (s : ParticipantSet) (a : Address)
      → (participate_as s a ≡ none)
        ⊎ ((g : Group) × (poap : List ℕ) × (participate_as s a ≡ some (g, poap))
            × (g.participants ≡ s.addresses))
  participants-cases s a = elim (Option-cases (participate_as s a)) [
    | inl alone ↦ inl alone
    | inr ((g, poap), eq) ↦ inr (g, poap, eq, participate_as-group s a g poap eq)
  ]

module _ ⦃A : Alloy⦄ ⦃F : Frost⦄ where
  -- A fresh commitment round for epoch `n` among the eligible that are not excluded, unless too few
  -- of them are left: then the epoch is given up.
  abbrev pub Restarts : Transition → ℕ → BTreeSet → Option ℕ → RolloverState → Type 0
  Restarts self n excluded deadline r =
      let epoch = fresh_epoch self n excluded in
      (TooFew self.config.participants epoch × (r ≡ epoch_skipped n))
      ⊎ ((¬ TooFew self.config.participants epoch)
          × (c : CollectingCommitments) × (r ≡ collecting_commitments c)
          × (c.next_epoch ≡ number n)
          × ((a : Address)
              → contains a c.group.participants ≡ (
                  not (contains a excluded)
                  && contains a (eligible self.config.participants epoch)))
          × (c.commitments ≡ [])
          × (c.deadline ≡ deadline))

  start-Restarts :
      (self : Transition) (s : State) (n : ℕ) (excluded : BTreeSet) (p : ParticipantSet)
      (d : Option ℕ)
      → participants_set self.config.participants (fresh_epoch self n excluded) ≡ some p
      → Restarts self n excluded d (start_key_gen self s (number n) p d).0.rollover
  unfolding start_key_gen
  start-Restarts self s n excluded p d h =
      let (members, _, _, _, _, _) =
        participants_set-IsViable self.config.participants (fresh_epoch self n excluded) p h in
      let enough : ¬ TooFew self.config.participants (fresh_epoch self n excluded) = λ few.
        some-none h
          ((participants_set-none self.config.participants (fresh_epoch self n excluded)).1 few) in
      elim (participants-cases p self.account) [
        | inl alone ↦
            let eq : (start_key_gen self s (number n) p d).0.rollover
                ≡ commitment_round (number n) (group_of p) KeyGenCommitment.observing d =
              ground arith in
            let members' : (a : Address)
                → contains a (group_of p).participants ≡ (
                    not (contains a excluded)
                    && contains a
                        (eligible self.config.participants (fresh_epoch self n excluded))) =
              λ a. unfold group_of in ground (arith, members a) in
            rw eq (inr (enough, _, refl, refl, members', refl, refl))
        | inr (g, poap, joined, same) ↦
            let eq : (start_key_gen self s (number n) p d).0.rollover
                ≡ commitment_round (number n) g (KeyGenCommitment.participating poap none) d =
              ground arith in
            let members' : (a : Address)
                → contains a g.participants ≡ (
                    not (contains a excluded)
                    && contains a
                        (eligible self.config.participants (fresh_epoch self n excluded))) =
              λ a. rw same (ground (arith, members a)) in
            rw eq (inr (enough, _, refl, refl, members', refl, refl))
      ]

  restart-Restarts :
      (self : Transition) (s : State) (n : ℕ) (excluded : BTreeSet) (d : Option ℕ)
      → Restarts self n excluded d
          (restart_key_gen_excluding self s (number n) excluded d).0.rollover
  unfolding restart_key_gen_excluding
  restart-Restarts self s n excluded d =
      elim (Option-cases
        (participants_set self.config.participants (fresh_epoch self n excluded))) [
          | inl few ↦ inl (
            (participants_set-none self.config.participants (fresh_epoch self n excluded)).0 few,
            unfold rollover_failure in ground arith,
          )
          | inr (p, eq) ↦
              let same : restart_key_gen_excluding self s (number n) excluded d
                  ≡ start_key_gen self s (number n) p d =
                ground arith in
              rw same (start-Restarts self s n excluded p d eq)
        ]

  -- A key generation for epoch `n` whose share round is past its deadline is restarted without
  -- the participants that have not shared and without those excluded before: the new round's group
  -- is the eligible participants that are not excluded, it has no commitments yet and a new
  -- deadline. It is given up for that epoch exactly if too few of them are left, that is fewer than
  -- two, or no more than two thirds of the eligible, or the eligible do not fit a `u16`.
  pub handle_key_gen_timeouts-shares :
      (self : Transition) (s : State) (block n deadline : ℕ) (c : CollectingShares)
      → s.rollover ≡ collecting_shares c
      → c.next_epoch ≡ number n
      → c.deadline ≡ some deadline
      → deadline ≤ block
      → (excluded : BTreeSet) × ((a : Address)
          → contains a excluded ≡ (
              contains a c.group.excluded
              || (contains a c.group.participants && not (contains a c.shared))))
        × Restarts self n excluded
            (some (min (block + self.config.key_gen_timeout) u64_max))
            (handle_key_gen_timeouts self s block).0.rollover
  unfolding handle_key_gen_timeouts
  handle_key_gen_timeouts-shares self s block n deadline c at epoch due late =
      let excluded = exclude_all_others c.group (elements c.shared) in
      let eq : handle_key_gen_timeouts self s block
          ≡ restart_key_gen_excluding self s (number n) excluded
              (some (key_gen_deadline self block)) =
        ground arith in
      (
        excluded,
        λ a.
            rw (contains-exclude_all_others c.group (elements c.shared) a, elem-elements a c.shared)
              refl,
        rw eq (restart-Restarts self s n excluded (some (key_gen_deadline self block))),
      )

  -- Every participant has committed, and this validator has no secrets for its part.
  abbrev pub IsStuck : CollectingCommitments → Type 0
  IsStuck c =
      ((poap : List B256) × (c.secrets ≡ KeyGenCommitment.participating poap none))
      × (length c.commitments % 65536 ≡ c.group.count)

  is_stuck-IsStuck : (c : CollectingCommitments) (block : ℕ) → is_stuck c block ≡ true → IsStuck c
  unfolding is_stuck
  is_stuck-IsStuck c block h = at c.secrets refl
    where
      at : (k : KeyGenCommitment) → c.secrets ≡ k → IsStuck c
      at (KeyGenCommitment.participating poap none) e = ((poap, e), ground arith)
      at (KeyGenCommitment.participating poap (some x)) e = ground arith
      at KeyGenCommitment.observing e = ground arith

  IsStuck-is_stuck :
      (c : CollectingCommitments) (block deadline : ℕ)
      → c.deadline ≡ some deadline
      → deadline ≤ block
      → is_stuck c block ≡ false
      → ¬ IsStuck c
  unfolding is_stuck
  IsStuck-is_stuck c block deadline due late h ((poap, e), all) = ground arith

  -- A commitment round for epoch `n` past its deadline is restarted in the same way without the
  -- participants that have not committed, unless all have committed and it is only this validator's
  -- own secrets that are missing: then, and where too few are left, the epoch is given up.
  pub handle_key_gen_timeouts-commitments :
      (self : Transition) (s : State) (block n deadline : ℕ) (c : CollectingCommitments)
      → s.rollover ≡ collecting_commitments c
      → c.next_epoch ≡ number n
      → c.deadline ≡ some deadline
      → deadline ≤ block
      → (excluded : BTreeSet) × ((a : Address)
          → contains a excluded ≡ (
              contains a c.group.excluded
              || (contains a c.group.participants && not (contains_key a c.commitments))))
        × ((IsStuck c × ((handle_key_gen_timeouts self s block).0.rollover ≡ epoch_skipped n))
            ⊎ ((¬ IsStuck c)
                × Restarts self n excluded
                    (some (min (block + self.config.key_gen_timeout) u64_max))
                    (handle_key_gen_timeouts self s block).0.rollover))
  unfolding handle_key_gen_timeouts
  handle_key_gen_timeouts-commitments self s block n deadline c at epoch due late =
      let committed = map (λ (e : ℕ × F.VerifiedCommitment). e.0) c.commitments in
      let excluded = exclude_all_others c.group committed in
      let expected : (a : Address)
          → contains a excluded ≡ (
              contains a c.group.excluded
              || (contains a c.group.participants && not (contains_key a c.commitments))) =
        λ a. rw (contains-exclude_all_others c.group committed a, elem-keys a c.commitments) refl in
      elim (Bool-cases (is_stuck c block)) [
        | inl stuck ↦
            let eq : (handle_key_gen_timeouts self s block).0.rollover ≡ epoch_skipped n =
              unfold rollover_failure in ground arith in
            (excluded, expected, inl (is_stuck-IsStuck c block stuck, eq))
        | inr able ↦
            let eq : handle_key_gen_timeouts self s block
                ≡ restart_key_gen_excluding self s (number n) excluded
                    (some (key_gen_deadline self block)) =
              ground arith in
            (
              excluded,
              expected,
              inr (
                IsStuck-is_stuck c block deadline due late able,
                rw eq (restart-Restarts self s n excluded (some (key_gen_deadline self block))),
              ),
            )
      ]
