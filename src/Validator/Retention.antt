-- ===== src/Validator/Retention.antt =====
-- What reconciliation keeps (crates/validator/src/state/secrets.rs).
use safenet.Prelude.{
  ℕ, ◌≤◌, ◌≡◌, refl, none, some, arith, List, [], ◌∷◌, true, leb, if◌then◌else◌, map,
}
use safenet.Prelude.BTree.{BTreeMap, get, insert, get-insert, contains_key, elem, values}
use safenet.Alloy.{B256}
use safenet.Consensus.Epoch.{EpochId, raw_value, epoch_min}
use safenet.Validator.Frost.{Frost}
use safenet.Validator.State.{State, Epoch, RetainedSecrets, SigningState, nonces}
use safenet.Validator.Sign.Packets.{packet_of, packet_epoch}
use safenet.Validator.Reconcile.{
  insert_all, oldest_epoch, split_off, retained_groups, rollover_secrets,
  handle_group_reconciliation,
}

abbrev first : B256 × RetainedSecrets → B256
first e = e.0

contains_key-insert_all :
    (k : B256) (xs : List (B256 × RetainedSecrets)) (m : BTreeMap RetainedSecrets)
    → contains_key k (insert_all xs m) ≡ (if elem k (map first xs) then true else contains_key k m)
unfolding insert_all elem
contains_key-insert_all k [] m = refl
contains_key-insert_all k ((j, v) ∷ xs) m =
    ground (arith, contains_key-insert_all k xs (insert j v m), get-insert j k v m)

module _ ⦃F : Frost⦄ where
  oldest_epoch-le :
      (oldest : EpochId) (sessions : List SigningState)
      → raw_value (oldest_epoch oldest sessions) ≤ raw_value oldest
  unfolding oldest_epoch epoch_min
  oldest_epoch-le oldest [] = omega arith
  oldest_epoch-le oldest (session ∷ rest) =
      ground (arith, oldest_epoch-le (epoch_min oldest (packet_epoch (packet_of session))) rest)

  oldest_epoch-session :
      (oldest : EpochId) (signing : BTreeMap SigningState) (m : B256) (session : SigningState)
      → get m signing ≡ some session
      → raw_value (oldest_epoch oldest (values signing))
        ≤ raw_value (packet_epoch (packet_of session))
  unfolding oldest_epoch epoch_min get
  oldest_epoch-session oldest [] m session h = absurd (ground arith)
  oldest_epoch-session oldest ((j, st) ∷ rest) m session h = ground (
    arith,
    oldest_epoch-session (epoch_min oldest (packet_epoch (packet_of st))) rest m session,
    oldest_epoch-le (epoch_min oldest (packet_epoch (packet_of st))) (values rest),
  )

  get-split_off :
      (oldest : EpochId) (epochs : BTreeMap Epoch) (k : ℕ)
      → get k (split_off oldest epochs) ≡ (if leb (raw_value oldest) k then get k epochs else none)
  unfolding split_off get
  get-split_off oldest [] k = ground arith
  get-split_off oldest ((j, e) ∷ rest) k = ground (arith, get-split_off oldest rest k)

  -- What is kept of an epoch that is finished.
  abbrev epoch_secrets : ℕ × Epoch → B256 × RetainedSecrets
  epoch_secrets e = (e.1.group.id, nonces)

  elem-groups :
      (epochs : BTreeMap Epoch) (k : ℕ) (epoch : Epoch)
      → get k epochs ≡ some epoch
      → elem epoch.group.id (map first (map epoch_secrets epochs)) ≡ true
  unfolding get elem
  elem-groups [] k epoch h = absurd (ground arith)
  elem-groups ((j, e) ∷ rest) k epoch h = ground (arith, elem-groups rest k epoch)

  -- The group of each of the epochs is among the groups whose secrets are retained, whatever the
  -- rollover state.
  pub retained_groups-epoch :
      (epochs : BTreeMap Epoch) (s : State) (k : ℕ) (epoch : Epoch)
      → get k epochs ≡ some epoch
      → contains_key epoch.group.id (retained_groups epochs s.rollover) ≡ true
  unfolding retained_groups
  retained_groups-epoch epochs s k epoch h =
      let groups = map epoch_secrets epochs in
      ground (
        arith,
        contains_key-insert_all epoch.group.id (rollover_secrets s.rollover) (insert_all groups []),
        contains_key-insert_all epoch.group.id groups [],
        elem-groups epochs k epoch h,
      )

  -- Reconciliation leaves every entry of an epoch as it is, or missing as it is, that is not before
  -- the epoch of the packet of some signing session.
  pub handle_group_reconciliation-session :
      (s : State) (block k : ℕ) (m : B256) (session : SigningState)
      → get m s.signing ≡ some session
      → raw_value (packet_epoch (packet_of session)) ≤ k
      → get k (handle_group_reconciliation s block).0.epochs ≡ get k s.epochs
  unfolding handle_group_reconciliation
  handle_group_reconciliation-session s block k m session h le = ground (
    arith,
    oldest_epoch-session s.active_epoch s.signing m session h,
    get-split_off (oldest_epoch s.active_epoch (values s.signing)) s.epochs k,
  )

  -- Reconciliation leaves the entries of the active epoch and of all later ones as they are.
  pub handle_group_reconciliation-active :
      (s : State) (block k : ℕ)
      → raw_value s.active_epoch ≤ k
      → get k (handle_group_reconciliation s block).0.epochs ≡ get k s.epochs
  unfolding handle_group_reconciliation
  handle_group_reconciliation-active s block k le = ground (
    arith,
    oldest_epoch-le s.active_epoch (values s.signing),
    get-split_off (oldest_epoch s.active_epoch (values s.signing)) s.epochs k,
  )
