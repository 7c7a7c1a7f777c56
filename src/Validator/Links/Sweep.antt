-- ===== src/Validator/Links/Sweep.antt =====
-- The sweep of `handle_signing_timeouts` (crates/validator/src/state/sign.rs) and the signature
-- index.
use safenet.Prelude.{
  ℕ, suc, ◌≡◌, refl, sym, Option, none, some, [], ◌∷◌, arith, ◌==◌, if◌then◌else◌, and_then,
  Option-cases, inl, inr, is_some, ◌∙◌, ap,
}
use safenet.Prelude.BTree.{BTreeMap, get, get-remove}
use safenet.Prelude.BTree.Sorted.{From, get_below}
use safenet.Alloy.{Alloy, B256}
use safenet.Validator.Frost.{Frost}
use safenet.Validator.State.{Transition, State, SigningState}
use safenet.Validator.Sign.Packets.{signing_id}
use safenet.Validator.Sign.Timeouts.{is_account, session_timeout, retain, handle_signing_timeouts}
use safenet.Validator.Sign.Sweep.{timed_out, get-retain}
use safenet.Validator.Links.Handlers.{IsLinked, id_at, message_at}

module _ ⦃F : Frost⦄ where
  abbrev id_in : BTreeMap SigningState → B256 → Option B256
  id_in l m = and_then (get m l) signing_id

  -- Every session's id leads back to it.
  abbrev IsForth : BTreeMap SigningState → BTreeMap B256 → Type 0
  IsForth l index = (m x : B256) → id_in l m ≡ some x → get x index ≡ some m

module _ ⦃A : Alloy⦄ ⦃F : Frost⦄ where
  -- The id that is left of a session.
  abbrev id_left : Transition → ℕ → B256 → SigningState → Option B256
  id_left self block m st = and_then (timed_out self block m st) signing_id

  -- A session keeps its id or loses it.
  id_left-or :
      (self : Transition) (block : ℕ) (m : B256) (st : SigningState) (x : B256)
      → id_left self block m st ≡ some x
      → signing_id st ≡ some x
  unfolding timed_out
  id_left-or self block m st x h = ground arith

  -- The index loses the id exactly with the session.
  index-session_timeout :
      (self : Transition) (block : ℕ) (m : B256) (st : SigningState) (index : BTreeMap B256)
      (y : B256)
      → get y (session_timeout self block m st index).1 ≡ (elim (signing_id st) [
        | none ↦ get y index
        | some x ↦
            if is_some (id_left self block m st)
            then get y index
            else if x == y
            then none
            else get y index
      ])
  unfolding timed_out
  index-session_timeout self block m st index y = grind (arith, get-remove)

  IsForth-tail :
      (self : Transition) (block k : ℕ) (m : B256) (st : SigningState) (l : BTreeMap SigningState)
      (index : BTreeMap B256)
      → From k ((m, st) ∷ l)
      → IsForth ((m, st) ∷ l) index
      → IsForth l (session_timeout self block m st index).1
  unfolding get
  IsForth-tail self block k m st l index f p j x h =
      let pj = p j x in
      let pm = p m in
      ground (
        arith,
        index-session_timeout self block m st index x,
        get_below (suc m) m l f.1,
        p j x,
        p m x,
      )

  abbrev left_in : Transition → ℕ → BTreeMap SigningState → B256 → Option B256
  left_in self block l m = and_then (get m l) (id_left self block m)

  -- The message that an id leads to afterwards.
  abbrev survives : Transition → ℕ → BTreeMap SigningState → B256 → B256 → Option B256
  survives self block l y m =
      if is_account (id_in l m) y
      then if is_some (left_in self block l m) then some m else none
      else some m

  index-retain :
      (self : Transition) (block k : ℕ) (l : BTreeMap SigningState) (index : BTreeMap B256)
      (y : B256)
      → From k l
      → IsForth l index
      → get y (retain self block l index).1 ≡ and_then (get y index) (survives self block l y)
  unfolding retain get is_account
  index-retain self block k [] index y f p = ground arith
  index-retain self block k ((m, st) ∷ l) index y f p =
      let out = session_timeout self block m st index in
      index-retain self block (suc m) l out.1 y f.1 (IsForth-tail self block k m st l index f p)
      ∙ ground (
        arith,
        index-session_timeout self block m st index y,
        get_below (suc m) m l f.1,
        p m y,
        ap (λ x. id_left self block x st),
      )

  left_in-or :
      (self : Transition) (block : ℕ) (l : BTreeMap SigningState) (m x : B256)
      → left_in self block l m ≡ some x
      → id_in l m ≡ some x
  left_in-or self block l m x h = go (get m l) h
    where
      go :
          (o : Option SigningState)
          → and_then o (id_left self block m) ≡ some x
          → and_then o signing_id ≡ some x
      go none h = cc
      go (some st) h = id_left-or self block m st x h

  id_at-timeouts :
      (self : Transition) (s : State) (block : ℕ) (m : B256)
      → From 0 s.signing
      → id_at (handle_signing_timeouts self s block).0 m ≡ left_in self block s.signing m
  unfolding handle_signing_timeouts
  id_at-timeouts self s block m f =
      rw (get-retain self block 0 s.signing s.signature_id_to_message m f) (ground arith)

  message_at-timeouts :
      (self : Transition) (s : State) (block : ℕ) (y : B256)
      → From 0 s.signing
      → IsLinked s
      → message_at (handle_signing_timeouts self s block).0 y
        ≡ and_then (message_at s y) (survives self block s.signing y)
  unfolding handle_signing_timeouts
  message_at-timeouts self s block y f l =
      index-retain self block 0 s.signing s.signature_id_to_message y f l.forth

  forth-timeouts :
      (self : Transition) (s : State) (block : ℕ)
      → From 0 s.signing
      → IsLinked s
      → (m x : B256) → left_in self block s.signing m ≡ some x
      → and_then (message_at s x) (survives self block s.signing x) ≡ some m
  unfolding is_account
  forth-timeouts self s block f l m x h =
      let held = left_in-or self block s.signing m x h in
      rw (l.forth m x held, h, held) (ground arith)

  survives-left_in :
      (self : Transition) (block : ℕ) (l : BTreeMap SigningState) (x m' m : B256)
      → id_in l m' ≡ some x
      → survives self block l x m' ≡ some m
      → left_in self block l m ≡ some x
  unfolding is_account
  survives-left_in self block l x m' m held kept = elim (Option-cases (left_in self block l m')) [
    | inl e ↦ let k = rw (held, e) at kept in absurd (ground arith)
    | inr (y, e) ↦
        let k = rw (held, e) at kept in
        let same : m' ≡ m = ground arith in
        let id : y ≡ x = ground (arith, left_in-or self block l m' y e) in rw (← same, e, id) refl
  ]

  back-timeouts :
      (self : Transition) (s : State) (block : ℕ)
      → From 0 s.signing
      → IsLinked s
      → (m x : B256) → and_then (message_at s x) (survives self block s.signing x) ≡ some m
      → left_in self block s.signing m ≡ some x
  back-timeouts self s block f l m x h = elim (Option-cases (message_at s x)) [
    | inl e ↦ absurd (ground arith)
    | inr (m', e) ↦ survives-left_in self block s.signing x m' m (l.back m' x e) (rw e at h)
  ]

  pub handle_signing_timeouts-IsLinked :
      (self : Transition) (s : State) (block : ℕ)
      → From 0 s.signing
      → IsLinked s
      → IsLinked (handle_signing_timeouts self s block).0
  handle_signing_timeouts-IsLinked self s block f l = record {
    forth = λ m x h.
        message_at-timeouts self s block x f l
        ∙ forth-timeouts self s block f l m x (sym (id_at-timeouts self s block m f) ∙ h);
    back = λ m x h.
        id_at-timeouts self s block m f
        ∙ back-timeouts self s block f l m x (sym (message_at-timeouts self s block x f l) ∙ h);
  }
