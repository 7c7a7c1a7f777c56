-- ===== src/Validator/Burns/Count.antt =====
-- The burns in a list of commands, and the sessions that can still burn: those whose nonces are
-- generated or to be generated.
use safenet.Prelude.{
  ℕ, suc, ◌+◌, ◌≡◌, Option, none, some, [], ◌∷◌, ◌++◌, Bool, true, false, arith, ◌==◌,
}
use safenet.Prelude.BTree.{BTreeMap, get, insert, remove, get-remove_self}
use safenet.Prelude.BTree.Sorted.{From, get_below, remove-From, remove_absent}
use safenet.Alloy.{B256}
use safenet.Validator.Frost.{Frost}
use safenet.Validator.State.{
  SigningState, waiting_for_request, waiting_for_oracle, collect_nonce_commitments,
  collect_signing_shares, waiting_for_attestation, Commands, Command, action, effect, Effect,
}

abbrev pub one_if : Bool → ℕ
one_if true = 1
one_if false = 0

module _ ⦃F : Frost⦄ where
  unfoldable pub burns_effect : B256 → Effect → ℕ
  burns_effect sid (Effect.use_nonces m x) = one_if (x == sid)
  burns_effect sid (Effect.key_gen_setup gid count threshold) = 0
  burns_effect sid (Effect.generate_nonces gid x key_share) = 0
  burns_effect sid (Effect.reconcile_group_secrets block groups) = 0

  unfoldable pub burns_command : B256 → Command → ℕ
  unfolding burns_effect
  burns_command sid (effect e) = burns_effect sid e
  burns_command sid (action a) = 0

  -- The commands that burn the nonces of a signature id.
  unfoldable pub burns : B256 → Commands → ℕ
  unfolding burns_command
  burns sid [] = 0
  burns sid (c ∷ cs) = burns_command sid c + burns sid cs

  unfoldable pub is_open : B256 → SigningState → ℕ
  is_open sid (waiting_for_request w) = 0
  is_open sid (waiting_for_oracle w) = one_if (w.signature_id == sid)
  is_open sid (collect_nonce_commitments c) = one_if (c.signature_id == sid)
  is_open sid (collect_signing_shares c) = 0
  is_open sid (waiting_for_attestation w) = 0

  unfoldable pub is_open_at : B256 → Option SigningState → ℕ
  unfolding is_open
  is_open_at sid none = 0
  is_open_at sid (some st) = is_open sid st

  -- The sessions that can still burn the nonces of a signature id.
  unfoldable pub open_sessions : B256 → BTreeMap SigningState → ℕ
  unfolding is_open
  open_sessions sid [] = 0
  open_sessions sid ((m, st) ∷ l) = is_open sid st + open_sessions sid l

  pub burns-append :
      (sid : B256) (cs ds : Commands) → burns sid (cs ++ ds) ≡ burns sid cs + burns sid ds
  unfolding burns
  burns-append sid [] ds = omega arith
  burns-append sid (c ∷ cs) ds = omega (arith, burns-append sid cs ds)

  pub open_sessions-insert :
      (sid m k : B256) (st : SigningState) (l : BTreeMap SigningState)
      → From k l
      → open_sessions sid (insert m st l) + is_open_at sid (get m l)
        ≡ open_sessions sid l + is_open sid st
  unfolding open_sessions insert get is_open_at
  open_sessions-insert sid m k st [] f = omega arith
  open_sessions-insert sid m k st ((j, w) ∷ l) f =
      ground (arith, open_sessions-insert sid m (suc j) st l f.1, get_below (suc j) m l f.1)

  pub open_sessions-remove :
      (sid m k : B256) (l : BTreeMap SigningState)
      → From k l
      → open_sessions sid (remove m l) + is_open_at sid (get m l) ≡ open_sessions sid l
  unfolding open_sessions remove get is_open_at
  open_sessions-remove sid m k [] f = omega arith
  open_sessions-remove sid m k ((j, w) ∷ l) f = ground (
    arith,
    open_sessions-remove sid m (suc j) l f.1,
    get_below (suc j) m l f.1,
    remove_absent m l,
  )

  pub open_sessions-replace :
      (sid m : B256) (st : SigningState) (l : BTreeMap SigningState)
      → From 0 l
      → open_sessions sid (insert m st (remove m l)) + is_open_at sid (get m l)
        ≡ open_sessions sid l + is_open sid st
  unfolding is_open_at
  open_sessions-replace sid m st l f = ground (
    arith,
    open_sessions-insert sid m 0 st (remove m l) (remove-From 0 m l f),
    open_sessions-remove sid m 0 l f,
    get-remove_self m l,
  )
