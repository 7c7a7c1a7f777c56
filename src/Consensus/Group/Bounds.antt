-- ===== src/Consensus/Group/Bounds.antt =====
-- Sizes, quorums, exclusion and proofs of participation of crates/validator/src/consensus/group.rs.
use safenet.Prelude.{
  ℕ, suc, ◌+◌, ◌*◌, ◌≤◌, ◌<◌, ◌≡◌, refl, none, some, arith, if◌then◌else◌, true, false, ◌&&◌, ◌||◌,
  not, List, [], ◌∷◌, ◌++◌, length, ◌⊎◌, inl, inr, ◌↔◌, Bool-cases, get_or, ==_refl, ap, subst,
}
use safenet.Prelude.BTree.{
  BTreeSet, contains, elements, remove_all, elem, elem-append, elem-elements, contains-extend,
  contains-remove_all, remove, get-remove, get,
}
use safenet.Prelude.BTree.Sorted.{
  From, Subset, length-remove, remove-From, length-remove_all-le, get_below, length-Subset,
}
use safenet.Alloy.{Alloy, Address, B256}
use safenet.Consensus.Merkle.{root, verify, proof}
use safenet.Consensus.Merkle.Inclusion.{verify-proof}
use safenet.Consensus.Group.{
  Group, ParticipantSet, Participant, GroupEpoch, also_exclude, exclude_all_others, group_threshold,
  min_participants, eligible, excluded_of, participants_set, group_of, participate_as, position,
  participants_tree,
}

-- Of two sets of participants either some address is in both, or their sizes add up to no more
-- than the number of participants.
common-or-bound :
    (p q r : BTreeSet) (a c : ℕ)
    → From a q
    → From c p
    → Subset q p
    → Subset r p
    → (b : ℕ) → From b r
    → ((x : Address) × (contains x q ≡ true) × (contains x r ≡ true))
      ⊎ (length q + length r ≤ length p)
unfolding get
common-or-bound p [] r a c fq fp sq sr b fr = inr (omega (arith, length-Subset r p b c fr fp sr))
common-or-bound p ((j, _) ∷ q) r a c fq fp sq sr b fr = elim (Bool-cases (contains j r)) [
  | inl both ↦ inl (j, ground (arith, ==_refl j), both)
  | inr only ↦
      elim (common-or-bound (remove j p) q r (suc j) c fq.1 (remove-From c j p fp)
        (λ x h. ground (arith, get-remove j x p, sq x, get_below (suc j) x q fq.1))
        (λ x h. ground (arith, get-remove j x p, sr x h)) b fr) [
          | inl (x, hx, hr) ↦ inl (x, ground (arith, get_below (suc j) x q fq.1), hr)
          | inr le ↦ inr (ground (arith, length-remove c j p fp, sq j, ==_refl j))
        ]
]

module _ ⦃A : Alloy⦄ where
  -- In the group of a participant set of 1 to 65535 addresses, any two sets of participants that
  -- both reach the signing threshold have an address in common.
  pub quorums_meet :
      (s : ParticipantSet) (q r : BTreeSet)
      → From 0 s.addresses
      → length s.addresses ≤ 65535
      → From 0 q
      → From 0 r
      → Subset q (group_of s).participants
      → Subset r (group_of s).participants
      → (group_of s).threshold ≤ length q
      → (group_of s).threshold ≤ length r
      → (x : Address) × (contains x q ≡ true) × (contains x r ≡ true)
  unfolding group_of group_threshold
  quorums_meet s q r fs n fq fr sq sr tq tr =
      elim (common-or-bound s.addresses q r 0 0 fq fs sq sr 0 fr) [
        | inl found ↦ found
        | inr le ↦ absurd (omega arith)
      ]

  -- A group can always reach its threshold: the threshold is positive, at most the count, and
  -- more than half of it, for a set of 1 to 65535 addresses.
  pub threshold_bounds :
      (s : ParticipantSet)
      → 0 < length s.addresses
      → length s.addresses ≤ 65535
      → (0 < (group_of s).threshold)
        × ((group_of s).threshold ≤ (group_of s).count)
        × ((group_of s).count < 2 * (group_of s).threshold)
  unfolding group_of group_threshold
  threshold_bounds s h k = (omega arith, omega arith, omega arith)

  -- What a participant set has: every eligible address that is not excluded and no other, at
  -- least two of them, more than two thirds of the eligible ones, and no more than fit a `u16`.
  pub participants_set-IsViable :
      (ps : List Participant) (epoch : GroupEpoch) (s : ParticipantSet)
      → participants_set ps epoch ≡ some s
      → ((a : Address)
          → contains a s.addresses
            ≡ (if contains a (excluded_of epoch) then false else contains a (eligible ps epoch)))
        × (s.excluded ≡ excluded_of epoch)
        × (2 ≤ length s.addresses)
        × (2 * length (eligible ps epoch) < 3 * length s.addresses)
        × (length s.addresses ≤ length (eligible ps epoch))
        × (length (eligible ps epoch) ≤ 65535)
  unfolding participants_set min_participants
  participants_set-IsViable ps epoch s h =
      let e : s.addresses ≡ remove_all (elements (excluded_of epoch)) (eligible ps epoch) =
        ground arith in
      (
        λ a. rw e (
            ground (
              arith,
              contains-remove_all a (elements (excluded_of epoch)) (eligible ps epoch),
              elem-elements a (excluded_of epoch),
            )),
        ground arith,
        ground arith,
        ground arith,
        rw e (length-remove_all-le (elements (excluded_of epoch)) (eligible ps epoch)),
        ground arith,
      )

  -- Too few are left of the eligible, or they are too many for a `u16`.
  abbrev pub TooFew : List Participant → GroupEpoch → Type 0
  TooFew ps epoch =
      let rest = length (remove_all (elements (excluded_of epoch)) (eligible ps epoch)) in
      let total = length (eligible ps epoch) in
      (65535 < total) ⊎ (rest < 2) ⊎ (3 * rest ≤ 2 * total)

  -- It is refused exactly if the eligible addresses do not fit a `u16`, or those of them that are
  -- not excluded are fewer than two or no more than two thirds of them.
  pub participants_set-none :
      (ps : List Participant) (epoch : GroupEpoch)
      → (participants_set ps epoch ≡ none) ↔ TooFew ps epoch
  unfolding participants_set min_participants
  participants_set-none ps epoch =
      let le = length-remove_all-le (elements (excluded_of epoch)) (eligible ps epoch) in
      (λ h. ground (arith, le), λ h. ground (arith, le))

pub contains-also_exclude :
    (g : Group) (xs : List Address) (a : Address)
    → contains a (also_exclude g xs) ≡ (contains a g.excluded || elem a xs)
unfolding also_exclude get
contains-also_exclude g xs a = ground (
  arith,
  contains-extend a (elements g.excluded ++ xs) [],
  elem-append a (elements g.excluded) xs,
  elem-elements a g.excluded,
)

-- Who is excluded next: those excluded before, and the participants that are not included.
pub contains-exclude_all_others :
    (g : Group) (include_only : List Address) (a : Address)
    → contains a (exclude_all_others g include_only)
      ≡ (contains a g.excluded || (contains a g.participants && not (elem a include_only)))
unfolding exclude_all_others
contains-exclude_all_others g include_only a =
    let rest = remove_all include_only g.participants in
    rw
      (
        contains-also_exclude g (elements rest) a,
        elem-elements a rest,
        contains-remove_all a include_only g.participants,
      )
      (ground arith)

position_below : (k : ℕ) (s : BTreeSet) (a : Address) → From k s → a ≤ k → position a s ≡ 0
unfolding position
position_below k [] a f h = refl
position_below k ((j, _) ∷ s) a f h = ground (arith, position_below (suc j) s a f.1)

-- A member's index in the sorted addresses is where it stands.
position_lem :
    (k : ℕ) (s : BTreeSet) (a : Address)
    → From k s
    → contains a s ≡ true
    → (position a s < length (elements s)) × (get_or (elements s) (position a s) 0 ≡ a)
unfolding position get
position_lem k [] a f c = cc
position_lem k ((j, _) ∷ s) a f c =
    ground (
      arith,
      position_lem (suc j) s a f.1,
      position_below (suc j) s a f.1,
      get_below (suc j) a s f.1,
    )

length-elements : (s : BTreeSet) → length (elements s) ≡ length s
length-elements [] = refl
length-elements (e ∷ s) = ap suc (length-elements s)

module _ ⦃A : Alloy⦄ where
  -- A validator participates exactly if its address is in the set, in the set's group, and its
  -- proof of participation is then accepted for its address against the root of that group.
  pub participate_as-verify :
      (s : ParticipantSet) (address : Address)
      → From 0 s.addresses
      → (poap : List B256) × (participate_as s address
          ≡ (if contains address s.addresses then some (group_of s, poap) else none))
        × ((contains address s.addresses && verify (group_of s).root address poap)
            ≡ contains address s.addresses)
  unfolding participate_as participants_tree group_of
  participate_as-verify s address f = elim (Bool-cases (contains address s.addresses)) [
    | inl c ↦
        let (below, at) = position_lem 0 s.addresses address f c in
        (
          proof (participants_tree s.addresses) (position address s.addresses),
          rw c refl,
          rw c (
              subst
                (λ x.
                  verify (root (participants_tree s.addresses)) x
                    (proof (participants_tree s.addresses) (position address s.addresses))
                  ≡ true)
                at (verify-proof (elements s.addresses) (position address s.addresses) below)),
        )
    | inr c ↦ ([], rw c refl, rw c refl)
  ]
