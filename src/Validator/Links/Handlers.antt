-- ===== src/Validator/Links/Handlers.antt =====
-- The signature index and the sessions under the handlers of crates/validator/src/state/sign.rs.
use safenet.Prelude.{ℕ, ◌≡◌, Option, none, some, arith, and_then, Option-cases, inl, inr}
use safenet.Prelude.BTree.{get, get-insert, get-remove}
use safenet.Alloy.{Address, B256}
use safenet.Validator.Frost.{Frost}
use safenet.Validator.State.{Transition, State}
use safenet.Validator.Sign.Packets.{signing_id}
use safenet.Validator.Sign.{
  SignEvent, handle_sign, handle_sign_completed, OracleResultEvent, handle_oracle_result,
  SignCommittedNoncesEvent, handle_sign_committed_nonces, SignSharedEvent, handle_sign_shared,
  handle_sign_attested,
}
use safenet.Validator.Links.Inverse.{IsInverse, IsInverse-same, IsInverse-unlink}

module _ ⦃F : Frost⦄ where
  -- The signature id of the session at a message.
  abbrev pub id_at : State → B256 → Option B256
  id_at s m = and_then (get m s.signing) signing_id

  abbrev pub message_at : State → B256 → Option B256
  message_at s x = get x s.signature_id_to_message

  abbrev pub IsLinked : State → Type 0
  IsLinked s = IsInverse (id_at s) (message_at s)

  id_at-completed :
      (self : Transition) (s : State) (block : ℕ) (sid : B256) (j : B256)
      → id_at (handle_sign_completed self s block sid).0 j ≡ id_at s j
  unfolding handle_sign_completed
  id_at-completed self s block sid j = grind (arith, get-insert, get-remove)

  message_at-completed :
      (self : Transition) (s : State) (block : ℕ) (sid : B256) (j : B256)
      → message_at (handle_sign_completed self s block sid).0 j ≡ message_at s j
  unfolding handle_sign_completed
  message_at-completed self s block sid j = grind (arith, get-insert, get-remove)

  pub handle_sign_completed-IsLinked :
      (self : Transition) (s : State) (block : ℕ) (sid : B256)
      → IsLinked s
      → IsLinked (handle_sign_completed self s block sid).0
  handle_sign_completed-IsLinked self s block sid l =
      IsInverse-same _ _ _ _ l (id_at-completed self s block sid)
        (message_at-completed self s block sid)

  id_at-shared :
      (s : State) (e : SignSharedEvent) (j : B256) → id_at (handle_sign_shared s e).0 j ≡ id_at s j
  unfolding handle_sign_shared
  id_at-shared s e j = grind (arith, get-insert, get-remove)

  message_at-shared :
      (s : State) (e : SignSharedEvent) (j : B256)
      → message_at (handle_sign_shared s e).0 j ≡ message_at s j
  unfolding handle_sign_shared
  message_at-shared s e j = grind (arith, get-insert, get-remove)

  id_at-committed :
      (self : Transition) (s : State) (block : ℕ) (e : SignCommittedNoncesEvent) (j : B256)
      → id_at (handle_sign_committed_nonces self s block e).0 j ≡ id_at s j
  unfolding handle_sign_committed_nonces
  id_at-committed self s block e j = grind (arith, get-insert, get-remove)

  message_at-committed :
      (self : Transition) (s : State) (block : ℕ) (e : SignCommittedNoncesEvent) (j : B256)
      → message_at (handle_sign_committed_nonces self s block e).0 j ≡ message_at s j
  unfolding handle_sign_committed_nonces
  message_at-committed self s block e j = grind (arith, get-insert, get-remove)

  forth-sign :
      (self : Transition) (s : State) (block : ℕ) (e : SignEvent)
      → message_at s e.sid ≡ none
      → IsLinked s
      → (m x : B256) → id_at (handle_sign self s block e).0 m ≡ some x
      → message_at (handle_sign self s block e).0 x ≡ some m
  unfolding handle_sign
  forth-sign self s block e fresh l m x h =
      let lf = l.forth m x in grind (arith, get-insert, get-remove)

  back-sign :
      (self : Transition) (s : State) (block : ℕ) (e : SignEvent)
      → message_at s e.sid ≡ none
      → IsLinked s
      → (m x : B256) → message_at (handle_sign self s block e).0 x ≡ some m
      → id_at (handle_sign self s block e).0 m ≡ some x
  unfolding handle_sign
  back-sign self s block e fresh l m x h =
      let lb = l.back m x in grind (arith, get-insert, get-remove)

  pub handle_sign_shared-IsLinked :
      (s : State) (e : SignSharedEvent) → IsLinked s → IsLinked (handle_sign_shared s e).0
  handle_sign_shared-IsLinked s e l =
      IsInverse-same _ _ _ _ l (id_at-shared s e) (message_at-shared s e)

  pub handle_sign_committed_nonces-IsLinked :
      (self : Transition) (s : State) (block : ℕ) (e : SignCommittedNoncesEvent)
      → IsLinked s
      → IsLinked (handle_sign_committed_nonces self s block e).0
  handle_sign_committed_nonces-IsLinked self s block e l =
      IsInverse-same _ _ _ _ l (id_at-committed self s block e)
        (message_at-committed self s block e)

  pub handle_sign-IsLinked :
      (self : Transition) (s : State) (block : ℕ) (e : SignEvent)
      → message_at s e.sid ≡ none
      → IsLinked s
      → IsLinked (handle_sign self s block e).0
  handle_sign-IsLinked self s block e fresh l = record {
    forth = forth-sign self s block e fresh l;
    back = back-sign self s block e fresh l;
  }

  forth-oracle :
      (self : Transition) (s : State) (block : ℕ) (o : Address) (e : OracleResultEvent)
      → IsLinked s
      → (m x : B256) → id_at (handle_oracle_result self s block o e).0 m ≡ some x
      → message_at (handle_oracle_result self s block o e).0 x ≡ some m
  unfolding handle_oracle_result
  forth-oracle self s block o e l m x h =
      let lf = l.forth m x in
      let lr = l.forth e.request_id x in grind (arith, get-insert, get-remove)

  back-oracle :
      (self : Transition) (s : State) (block : ℕ) (o : Address) (e : OracleResultEvent)
      → IsLinked s
      → (m x : B256) → message_at (handle_oracle_result self s block o e).0 x ≡ some m
      → id_at (handle_oracle_result self s block o e).0 m ≡ some x
  unfolding handle_oracle_result
  back-oracle self s block o e l m x h =
      let lb = l.back m x in let lr = l.forth e.request_id in grind (arith, get-insert, get-remove)

  pub handle_oracle_result-IsLinked :
      (self : Transition) (s : State) (block : ℕ) (o : Address) (e : OracleResultEvent)
      → IsLinked s
      → IsLinked (handle_oracle_result self s block o e).0
  handle_oracle_result-IsLinked self s block o e l = record {
    forth = forth-oracle self s block o e l;
    back = back-oracle self s block o e l;
  }

  pub handle_sign_attested-IsLinked :
      (s : State) (message : B256) → IsLinked s → IsLinked (handle_sign_attested s message).0
  unfolding handle_sign_attested
  handle_sign_attested-IsLinked s message l =
      elim (Option-cases (and_then (get message s.signing) signing_id)) [
        | inl e ↦
            IsInverse-same _ _ _ _ l (λ j. grind (arith, get-remove))
              (λ y. grind (arith, get-remove))
        | inr (x, e) ↦
            IsInverse-unlink _ _ _ _ l message x e (λ j. grind (arith, get-remove))
              (λ y. grind (arith, get-remove))
      ]
